-- ===== src/Mission/Transfer.antt =====
-- The transaction of internal/mission/coordinator.go once its slot is held. What `next` waits for is a
-- script of arrivals, the transport's answers a function of how many messages were written before;
-- `waiting` is a wait that goes on when the script is used up.
use yalb_link.Prelude.{
  ℕ, zero, suc, ◌%◌, ◌^◌, not, ◌||◌, Option, none, some, List, [], ◌∷◌, ◌++◌, ◌==◌, leb, length,
  if◌then◌else◌,
}
use yalb_link.Codec.{Target}
use yalb_link.Codec.Encode.{
  Message, encode_mission_request_list, encode_mission_request_int, encode_mission_ack,
}
use yalb_link.Proto.{Timestamp}
use yalb_link.Proto.Transactions.{Response, ProtocolEvent, MissionItem, MissionSnapshot}
use yalb_link.Mission.Key.{DownloadError}
use yalb_link.Codec.{WriteError}

pub data Arrival : Type 0 where
  response : ProtocolEvent → Arrival
  timer_fired context_done : Arrival

pub record Wire : Type 0 where
  pub arrivals : List Arrival
  pub written : List Message

pub data Outcome (A : Type 0) : Type 0 where
  ok : A → Outcome A
  err : DownloadError → Outcome A
  waiting : Outcome A

-- An action on the wire.
abbrev pub M : Type 0 → Type 0
M A = Wire → Outcome A × Wire

abbrev pub resume : {A B : Type 0} → (A → M B) → Outcome A × Wire → Outcome B × Wire
resume f (ok a, w) = f a w
resume f (err e, w) = (err e, w)
resume f (waiting, w) = (waiting, w)

infixl 5 ◌>>=◌ ◌>>◌
abbrev pub ◌>>=◌ : {A B : Type 0} → M A → (A → M B) → M B
◌>>=◌ m f w = resume f (m w)

abbrev pub ◌>>◌ : {B : Type 0} → M (Unit {0}) → M B → M B
m >> k = m >>= λ _. k

abbrev pub pure : {A : Type 0} → A → M A
pure a w = (ok a, w)

abbrev pub write_result : Option WriteError → Outcome (Unit {0})
write_result none = ok tt
write_result (some WriteError.unknown_link) = err DownloadError.no_route
write_result (some WriteError.other) = err DownloadError.write_failed

-- MAV_MISSION_ACCEPTED
abbrev pub mission_accepted : ℕ
mission_accepted = 0

-- What a wait makes of one response: it is the answer, it ends the transfer, or it is skipped.
pub data Verdict (A : Type 0) : Type 0 where
  accept : A → Verdict A
  refuse : ℕ → Verdict A
  skip : Verdict A

-- The loop body of awaitCount.
unfoldable pub count_verdict : Option Response → Verdict ℕ
count_verdict (some (Response.mission_ack a)) =
    if not (a.result == mission_accepted) then refuse a.result else skip
count_verdict (some (Response.mission_count m)) = accept m.count
count_verdict _ = skip

-- The loop body of awaitItem.
unfoldable pub item_verdict : ℕ → ℕ → Option Response → Verdict MissionItem
item_verdict want count (some (Response.mission_ack a)) =
    if not (a.result == mission_accepted) then refuse a.result else skip
item_verdict want count (some (Response.mission_item item)) =
    if leb count item.seq || not (item.seq == want) then skip else accept item
item_verdict want count _ = skip

-- What the wait does after one response, given what it would do with the rest.
abbrev pub settle :
    {A : Type 0} → Verdict A → List Arrival → Outcome A × List Arrival → Outcome A × List Arrival
settle (accept a) rest again = (ok a, rest)
settle (refuse result) rest again = (err (DownloadError.rejected result), rest)
settle skip rest again = again

-- The loop around `next`, which gives a response, a timeout or the end of the context.
unfoldable pub await :
    {A : Type 0} → (Option Response → Verdict A) → List Arrival → Outcome A × List Arrival
await verdict [] = (waiting, [])
await verdict (timer_fired ∷ rest) = (err DownloadError.timeout, rest)
await verdict (context_done ∷ rest) = (err DownloadError.cancelled, rest)
await verdict (response ev ∷ rest) = settle (verdict ev.payload) rest (await verdict rest)

unfoldable pub await_count : List Arrival → Outcome ℕ × List Arrival
unfolding await count_verdict
await_count = await count_verdict

unfoldable pub await_item : ℕ → ℕ → List Arrival → Outcome MissionItem × List Arrival
unfolding await item_verdict
await_item want count = await (item_verdict want count)

-- A wait reads from the script and writes nothing.
abbrev pub reading : {A : Type 0} → (List Arrival → Outcome A × List Arrival) → M A
reading wait w = let (r, rest) = wait w.arrivals in (r, record w { arrivals = rest })

module _ (answer : ℕ → Option WriteError) (target : Target) (mission_type : ℕ) where
  unfoldable pub write : Message → M (Unit {0})
  write msg w =
      (write_result (answer (length w.written)), record w { written = w.written ++ (msg ∷ []) })

  -- The loop of run over the sequence numbers; `left` is how many are left of `count`.
  unfoldable pub fetch : ℕ → ℕ → ℕ → List MissionItem → M (List MissionItem)
  fetch count zero seq items = pure items
  fetch count (suc left) seq items = do
    write (encode_mission_request_int target (seq % 2 ^ 16) mission_type)
    item ← reading (await_item seq count)
    fetch count left (suc seq) (items ++ (item ∷ []))

  unfoldable pub run : Timestamp → M MissionSnapshot
  run now = do
    write (encode_mission_request_list target mission_type)
    count ← reading await_count
    items ← fetch count count 0 []
    write (encode_mission_ack target mission_accepted mission_type)
    pure (record {
      vehicle_id = record { system_id = target.system_id; component_id = target.component_id };
      mission_type = mission_type;
      items = items;
      observed_at = now;
    })
