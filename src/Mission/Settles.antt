-- ===== src/Mission/Settles.antt =====
-- A download of internal/mission/coordinator.go does not wait for ever.
use yalb_link.Prelude.{ℕ, zero, suc, ◌%◌, ◌^◌, ◌≢◌, Option, none, some, List, [], ◌∷◌, ◌++◌, length}
use yalb_link.Codec.{Target}
use yalb_link.Codec.Encode.{
  Message, encode_mission_request_list, encode_mission_request_int, encode_mission_ack,
}
use yalb_link.Proto.{Timestamp}
use yalb_link.Proto.Transactions.{Response, MissionItem}
use yalb_link.Codec.{WriteError}
use yalb_link.Mission.Transfer.{
  Arrival, response, timer_fired, context_done, Wire, Outcome, ok, err, waiting, M, resume, reading,
  Verdict, accept, refuse, skip, settle, await, await_count, await_item, write, write_result, fetch,
  run, mission_accepted, count_verdict, item_verdict,
}

-- The script has a wait that times out or is cancelled.
abbrev pub HasEnd : List Arrival → Type 0
HasEnd [] = ⊥
HasEnd (timer_fired ∷ script) = Unit
HasEnd (context_done ∷ script) = Unit
HasEnd (response ev ∷ script) = HasEnd script

-- The wait is over, and if it succeeded the end of the script is still to come.
abbrev Over : {A : Type 0} → Outcome A × List Arrival → Type 0
Over (ok a, rest) = HasEnd rest
Over (err e, rest) = Unit
Over (waiting, rest) = ⊥

settle-Over :
    {A : Type 0} (v : Verdict A) (rest : List Arrival) (again : Outcome A × List Arrival)
    → HasEnd rest
    → Over again
    → Over (settle v rest again)
settle-Over (accept a) rest again h o = h
settle-Over (refuse n) rest again h o = tt
settle-Over skip rest again h o = o

await-Over :
    {A : Type 0} (verdict : Option Response → Verdict A) (script : List Arrival)
    → HasEnd script
    → Over (await verdict script)
unfolding await
await-Over verdict [] h = absurd h
await-Over verdict (timer_fired ∷ rest) h = tt
await-Over verdict (context_done ∷ rest) h = tt
await-Over verdict (response ev ∷ rest) h =
    settle-Over (verdict ev.payload) rest (await verdict rest) h (await-Over verdict rest h)

-- The same for an action on the wire.
abbrev Ended : {A : Type 0} → Outcome A × Wire → Type 0
Ended (ok a, w) = HasEnd w.arrivals
Ended (err e, w) = Unit
Ended (waiting, w) = ⊥

Ended-resume :
    {A B : Type 0} (f : A → M B) (r : Outcome A × Wire)
    → Ended r
    → ((a : A) (w : Wire) → HasEnd w.arrivals → Ended (f a w))
    → Ended (resume f r)
Ended-resume f (ok a, w) e k = k a w e
Ended-resume f (err x, w) e k = tt
Ended-resume f (waiting, w) e k = absurd e

Ended-read :
    {A : Type 0} (w : Wire) (r : Outcome A × List Arrival)
    → Over r
    → Ended (r.0, record w { arrivals = r.1 })
Ended-read w (ok a, rest) o = o
Ended-read w (err e, rest) o = tt
Ended-read w (waiting, rest) o = absurd o

Ended-not-waiting : {A : Type 0} (r : Outcome A × Wire) → Ended r → r.0 ≢ waiting
Ended-not-waiting (ok a, w) e q = cc
Ended-not-waiting (err x, w) e q = cc
Ended-not-waiting (waiting, w) e q = absurd e

module _ (answer : ℕ → Option WriteError) (target : Target) (mission_type : ℕ) where
  write-Ended :
      (msg : Message) (w : Wire)
      → HasEnd w.arrivals
      → Ended (write answer target mission_type msg w)
  unfolding write
  write-Ended msg w h = sent (answer (length w.written))
    where
      sent :
          (r : Option WriteError)
          → Ended (write_result r, record w { written = w.written ++ (msg ∷ []) })
      sent none = h
      sent (some WriteError.unknown_link) = tt
      sent (some WriteError.other) = tt

  fetch-Ended :
      (count left seq : ℕ) (items : List MissionItem) (w : Wire)
      → HasEnd w.arrivals
      → Ended (fetch answer target mission_type count left seq items w)
  unfolding fetch await_item
  fetch-Ended count zero seq items w h = h
  fetch-Ended count (suc left) seq items w h =
      let msg = encode_mission_request_int target (seq % 2 ^ 16) mission_type in
      Ended-resume _ (write answer target mission_type msg w) (write-Ended msg w h) (λ _ w₁ h₁.
        Ended-resume _ (reading (await_item seq count) w₁)
          (Ended-read w₁ (await_item seq count w₁.arrivals)
            (await-Over (item_verdict seq count) w₁.arrivals h₁))
          (λ x w₂ h₂. fetch-Ended count left (suc seq) (items ++ (x ∷ [])) w₂ h₂))

  run-Ended :
      (now : Timestamp) (w : Wire)
      → HasEnd w.arrivals
      → Ended (run answer target mission_type now w)
  unfolding run await_count
  run-Ended now w h =
      let opening = encode_mission_request_list target mission_type in
      let closing = encode_mission_ack target mission_accepted mission_type in
      Ended-resume _ (write answer target mission_type opening w) (write-Ended opening w h)
        (λ _ w₁ h₁.
          Ended-resume _ (reading await_count w₁)
            (Ended-read w₁ (await_count w₁.arrivals) (await-Over count_verdict w₁.arrivals h₁))
            (λ count w₂ h₂.
              Ended-resume _ (fetch answer target mission_type count count 0 [] w₂)
                (fetch-Ended count count 0 [] w₂ h₂)
                (λ items w₃ h₃.
                  Ended-resume _ (write answer target mission_type closing w₃)
                    (write-Ended closing w₃ h₃) (λ _ w₄ h₄. h₄))))

  -- Once some wait of the script times out or is cancelled, the download has come to an end, with a
  -- snapshot or an error, whatever came before and whatever the transport answers.
  pub run_settles :
      (now : Timestamp) (w : Wire)
      → HasEnd w.arrivals
      → (run answer target mission_type now w).0 ≢ waiting
  run_settles now w h = Ended-not-waiting (run answer target mission_type now w) (run-Ended now w h)
