-- ===== src/Mission/Complete.antt =====
-- When a download of internal/mission/coordinator.go succeeds: the responses it needs, whatever else
-- the link delivers between them.
use mathlib.Core.List.{append-nil, append_assoc}
use yalb_link.Prelude.{
  ℕ, suc, ◌+◌, ◌%◌, ◌^◌, ◌<◌, ◌≡◌, ◌∙◌, ◌≢◌, refl, ap, Option, none, some, List, [], ◌∷◌, ◌++◌,
  length, arith,
}
use yalb_link.Codec.{Target}
use yalb_link.Codec.Encode.{
  Message, encode_mission_request_list, encode_mission_request_int, encode_mission_ack,
}
use yalb_link.Proto.{Timestamp}
use yalb_link.Proto.Transactions.{Response, ProtocolEvent, MissionItem, MissionCount}
use yalb_link.Codec.{WriteError}
use yalb_link.Mission.Transfer.{
  Arrival, response, Wire, ok, Verdict, accept, skip, await, await_item, await_count, write, fetch,
  run, item_verdict, count_verdict, mission_accepted,
}

-- A payload that neither answers nor refuses the request for item `want`: another kind of response, an
-- accepting acknowledgement, or an item under another number.
abbrev pub Irrelevant : ℕ → Option Response → Type 0
Irrelevant want (some (Response.mission_ack a)) = a.result ≡ mission_accepted
Irrelevant want (some (Response.mission_item i)) = i.seq ≢ want
Irrelevant want _ = Unit

-- The same for the request list: neither a count nor a refusal.
abbrev pub NoCount : Option Response → Type 0
NoCount (some (Response.mission_ack a)) = a.result ≡ mission_accepted
NoCount (some (Response.mission_count m)) = ⊥
NoCount _ = Unit

abbrev pub AllNoise : (Option Response → Type 0) → List ProtocolEvent → Type 0
AllNoise P [] = Unit
AllNoise P (ev ∷ evs) = P ev.payload × AllNoise P evs

-- Responses in front of a script.
abbrev pub deliver : List ProtocolEvent → List Arrival → List Arrival
deliver [] script = script
deliver (ev ∷ evs) script = response ev ∷ deliver evs script

-- For each item in turn: noise, then a response that carries it under its number.
pub data Serves (rest : List Arrival) : ℕ → List MissionItem → List Arrival → Type 0 where
  finished : {seq : ℕ} → Serves rest seq [] rest
  serve :
      {seq : ℕ} {xs : List MissionItem} {script : List Arrival} (noise : List ProtocolEvent)
      (ev : ProtocolEvent) (x : MissionItem)
      → AllNoise (Irrelevant seq) noise
      → ev.payload ≡ some (Response.mission_item x)
      → x.seq ≡ seq
      → Serves rest (suc seq) xs script
      → Serves rest seq (x ∷ xs) (deliver noise (response ev ∷ script))

await-deliver :
    {A : Type 0} (P : Option Response → Type 0) (verdict : Option Response → Verdict A)
    → ((p : Option Response) → P p → verdict p ≡ skip)
    → (noise : List ProtocolEvent) (script : List Arrival) → AllNoise P noise
    → await verdict (deliver noise script) ≡ await verdict script
unfolding await
await-deliver P verdict skips [] script all = refl
await-deliver P verdict skips (ev ∷ evs) script all =
    rw (skips ev.payload all.0) (await-deliver P verdict skips evs script all.1)

await-accept :
    {A : Type 0} (verdict : Option Response → Verdict A) (ev : ProtocolEvent)
    (script : List Arrival) (a : A)
    → verdict ev.payload ≡ accept a
    → await verdict (response ev ∷ script) ≡ (ok a, script)
unfolding await
await-accept verdict ev script a h = rw h

item_verdict-skip :
    (want count : ℕ) (p : Option Response) → Irrelevant want p → item_verdict want count p ≡ skip
unfolding item_verdict
item_verdict-skip want count (some (Response.mission_ack a)) h = ground arith
item_verdict-skip want count (some (Response.mission_item i)) h = ground arith
item_verdict-skip want count (some (Response.mission_count m)) h = refl
item_verdict-skip want count (some (Response.param_value m)) h = refl
item_verdict-skip want count (some (Response.command_ack m)) h = refl
item_verdict-skip want count none h = refl

count_verdict-skip : (p : Option Response) → NoCount p → count_verdict p ≡ skip
unfolding count_verdict
count_verdict-skip (some (Response.mission_ack a)) h = ground arith
count_verdict-skip (some (Response.mission_item i)) h = refl
count_verdict-skip (some (Response.mission_count m)) h = absurd h
count_verdict-skip (some (Response.param_value m)) h = refl
count_verdict-skip (some (Response.command_ack m)) h = refl
count_verdict-skip none h = refl

item_verdict-accept :
    (count : ℕ) (p : Option Response) (x : MissionItem)
    → p ≡ some (Response.mission_item x)
    → x.seq < count
    → item_verdict x.seq count p ≡ accept x
unfolding item_verdict
item_verdict-accept count p x e h = rw e (ground arith)

count_verdict-accept :
    (p : Option Response) (m : MissionCount) (xs : List MissionItem)
    → p ≡ some (Response.mission_count m)
    → m.count ≡ length xs
    → count_verdict p ≡ accept (length xs)
unfolding count_verdict
count_verdict-accept p m xs e n = rw (e, n)

await_item-served :
    (seq count : ℕ) (noise : List ProtocolEvent) (ev : ProtocolEvent) (script : List Arrival)
    (x : MissionItem)
    → AllNoise (Irrelevant seq) noise
    → ev.payload ≡ some (Response.mission_item x)
    → x.seq ≡ seq
    → seq < count
    → await_item seq count (deliver noise (response ev ∷ script)) ≡ (ok x, script)
unfolding await_item
await_item-served seq count noise ev script x all e n h =
    await-deliver (Irrelevant seq) (item_verdict seq count) (item_verdict-skip seq count) noise
      (response ev ∷ script) all
    ∙ await-accept (item_verdict seq count) ev script x
        (rw (← n) (item_verdict-accept count ev.payload x e (rw n h)))

module _ (answer : ℕ → Option WriteError) (answers : (n : ℕ) → answer n ≡ none) (target : Target)
    (mission_type : ℕ) where
  write-ok :
      (msg : Message) (w : Wire)
      → write answer target mission_type msg w
        ≡ (ok tt, record w { written = w.written ++ (msg ∷ []) })
  unfolding write
  write-ok msg w = rw (answers (length w.written))

  fetch-Serves :
      (count seq : ℕ) (items xs : List MissionItem) (rest script : List Arrival) (ws : List Message)
      → Serves rest seq xs script
      → length xs + seq ≡ count
      → (ws' : List Message) × (fetch answer target mission_type count
            (length xs)
            seq
            items
            (record { arrivals = script; written = ws })
          ≡ (ok (items ++ xs), record { arrivals = rest; written = ws' }))
  unfolding fetch
  fetch-Serves count seq items [] rest script ws finished n = (ws, rw append-nil)
  fetch-Serves count seq items (x ∷ xs) rest _ ws
        (serve {script = script} noise ev _ all e s serves) n =
      let msg = encode_mission_request_int target (seq % 2 ^ 16) mission_type in
      let (ws', later) =
        fetch-Serves count (suc seq) (items ++ (x ∷ [])) xs rest script (ws ++ (msg ∷ [])) serves
          (omega arith) in
      (
        ws',
        rw (write-ok msg (record { arrivals = deliver noise (response ev ∷ script); written = ws }))
            (rw (await_item-served seq count noise ev script x all e s (omega arith)) (
              later
              ∙ ap (λ v. (ok v, record { arrivals = rest; written = ws' }))
                  (append_assoc items (x ∷ []) xs))),
      )

  -- On a link that takes every write, a download succeeds with exactly the items the vehicle served, in
  -- order, and leaves the rest of the script unread: if a count comes and then each item under its
  -- number, whatever else the link delivers before each of them is skipped, as long as it refuses nothing,
  -- is no count before the count, and is no item under the number that is asked for.
  pub run_complete :
      (now : Timestamp) (noise : List ProtocolEvent) (ev : ProtocolEvent) (m : MissionCount)
      (xs : List MissionItem) (script rest : List Arrival) (ws : List Message)
      → AllNoise NoCount noise
      → ev.payload ≡ some (Response.mission_count m)
      → m.count ≡ length xs
      → Serves rest 0 xs script
      → (ws' : List Message) × (run answer target mission_type now
            (record { arrivals = deliver noise (response ev ∷ script); written = ws })
          ≡ (
            ok (record {
              vehicle_id = record {
                system_id = target.system_id;
                component_id = target.component_id;
              };
              mission_type = mission_type;
              items = xs;
              observed_at = now;
            }),
            record { arrivals = rest; written = ws' },
          ))
  unfolding run await_count
  run_complete now noise ev m xs script rest ws all e n serves =
      let opening = encode_mission_request_list target mission_type in
      let closing = encode_mission_ack target mission_accepted mission_type in
      let (ws', fetched) =
        fetch-Serves (length xs) 0 [] xs rest script (ws ++ (opening ∷ [])) serves (omega arith) in
      (
        ws' ++ (closing ∷ []),
        rw
            (write-ok opening
              (record { arrivals = deliver noise (response ev ∷ script); written = ws }))
            (rw
              (await-deliver NoCount count_verdict count_verdict-skip noise (response ev ∷ script)
                all)
              (rw
                (await-accept count_verdict ev script (length xs)
                  (count_verdict-accept ev.payload m xs e n))
                (rw fetched (rw (write-ok closing (record { arrivals = rest; written = ws' })))))),
      )
