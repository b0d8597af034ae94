-- ===== src/Bridge/Frames.antt =====
-- What a frame and a sweep do to the bridge of internal/bridge/bridge.go.
use mathlib.Core.Option.{map as option_map}
use yalb_link.Prelude.{
  Bool, ◌&&◌, ◌==◌, ℕ, ◌≡◌, ◌∙◌, refl, ap, inl, inr, Bool-cases, true, not, ◌||◌, Option, none,
  some, List, [], ◌∷◌, arith, if◌then◌else◌,
}
use yalb_link.GoMap
use yalb_link.GoMap.{GoMap}
use yalb_link.GoMap.Laws.{lookup-insert}
use yalb_link.Routes.{Key, key_beq, key_beq_iff, key_eq, Entry, Table, resolve, upsert, evict}
use yalb_link.Routes.Lookup.{stored, resolve-view, view-upsert, link_of_entry}
use yalb_link.Vehicle.Event.{Event}
use yalb_link.Vehicle.State.{State}
use yalb_link.Vehicle.Fold.{fold, expire}
use yalb_link.Bridge.Pipeline.{
  Frame, Bridge, is_own, frame_key, inbound, state_of, unless_failed, swept, emit, receive, frame,
  sweep_states, evict_after, sweep_once,
}

stored-link : (prev : Option Entry) (e : Entry) (now_ms : ℕ) → (stored prev e now_ms).link ≡ e.link
stored-link none e now_ms = refl
stored-link (some prev) e now_ms = ground arith

-- A key resolves to the link of its last Upsert at that reading.
resolve-upsert :
    (e : Entry) (now_ms : ℕ) (t : Table)
    → (resolve e.key now_ms (upsert e now_ms t)).1 ≡ some e.link
resolve-upsert e now_ms t =
    resolve-view e.key now_ms (upsert e now_ms t)
    ∙ ap link_of_entry (view-upsert e now_ms now_ms e.key t)
    ∙ ground (arith, key_beq_iff e.key e.key, stored-link (GoMap.lookup e.key t.entries) e now_ms)

unless_failed-succeeds :
    {W E : Type 0} (r rest : W × Option E)
    → r.1 ≡ none
    → rest.1 ≡ none
    → (unless_failed r rest).1 ≡ none
unless_failed-succeeds (w, none) rest h k = k
unless_failed-succeeds (w, some e) rest h k = absurd (cc)

swept-lookup :
    {W E : Type 0} (k j : Key) (s : State) (now : ℕ) (m : GoMap Key State) (r : W × Option E)
    (rest : GoMap Key State × (W × Option E))
    → r.1 ≡ none
    → (GoMap.lookup j rest.0 ≡ option_map (λ s. (expire s now).0) (GoMap.lookup j m))
      × (rest.1.1 ≡ none)
    → (GoMap.lookup j (swept k (expire s now).0 m r rest).0
        ≡ option_map (λ s. (expire s now).0) (GoMap.lookup j ((k, s) ∷ m)))
      × ((swept k (expire s now).0 m r rest).1.1 ≡ none)
unfolding GoMap.lookup
swept-lookup k j s now m (w, none) (rest, result) h (found, fine) =
    (elim (Bool-cases (key_beq k j)) [ inl hit ↦ ground arith | inr miss ↦ ground arith ], fine)
swept-lookup k j s now m (w, some e) rest h f = absurd (cc)

evict_after-effect :
    {W E : Type 0} (now : ℕ) (t : Table) (j : Key) (x : GoMap Key State × (W × Option E))
    {expected : Option State}
    → x.1.1 ≡ none
    → GoMap.lookup j x.0 ≡ expected
    → (GoMap.lookup j (evict_after now t x).0.states ≡ expected)
      × ((evict_after now t x).0.routes ≡ (evict now t).0)
unfolding evict_after
evict_after-effect now t j (states, (w, none)) h found = (found, refl)
evict_after-effect now t j (states, (w, some e)) h found = absurd (cc)

-- The sender has this station's own system and component id.
abbrev pub from_station : Frame → Bool
from_station e = e.sys_id == 255 && e.comp_id == 190

abbrev pub sender_key : Frame → Key
sender_key e = record { sys_id = e.sys_id; comp_id = e.comp_id }

module _ {W E : Type 0} (sink : Event → W → W × Option E) where
  pub frame_effect :
      (e : Frame) (now : ℕ) (b : Bridge) (w : W) (j : Key)
      → ((resolve (sender_key e) now (frame sink e now b w).0.routes).1
          ≡ (if from_station e then (resolve (sender_key e) now b.routes).1 else some e.channel))
        × (GoMap.lookup j (frame sink e now b w).0.states ≡ (
            if from_station e || not (key_beq (sender_key e) j)
            then GoMap.lookup j b.states
            else some (fold (state_of (sender_key e) b) (inbound e) now).0))
        × (from_station e ≡ true → (frame sink e now b w).1 ≡ (w, none))
  unfolding frame receive is_own
  frame_effect e now b w j =
      let entry : Entry = record {
        link = e.channel;
        src_ip = e.src_ip;
        src_port = e.src_port;
        last_seen_ms = 0;
        key = frame_key e;
      } in
      let next = (fold (state_of (frame_key e) b) (inbound e) now).0 in
      (
        ground (arith, resolve-upsert entry now b.routes),
        ground (arith, lookup-insert (frame_key e) j next b.states),
        ground arith,
      )

  emit_succeeds :
      ((ev : Event) (w : W) → (sink ev w).1 ≡ none)
      → (evs : List Event) (w : W) → (emit sink evs w).1 ≡ none
  unfolding emit
  emit_succeeds total [] w = refl
  emit_succeeds total (ev ∷ evs) w =
      unless_failed-succeeds (sink ev w) (emit sink evs (sink ev w).0) (total ev w)
        (emit_succeeds total evs (sink ev w).0)

  sweep_states-lookup :
      ((ev : Event) (w : W) → (sink ev w).1 ≡ none)
      → (now : ℕ) (m : GoMap Key State) (w : W) (j : Key)
      → (GoMap.lookup j (sweep_states sink now m w).0
          ≡ option_map (λ s. (expire s now).0) (GoMap.lookup j m))
        × ((sweep_states sink now m w).1.1 ≡ none)
  unfolding sweep_states GoMap.lookup
  sweep_states-lookup total now [] w j = (refl, refl)
  sweep_states-lookup total now ((k, s) ∷ m) w j =
      swept-lookup k j s now m (emit sink (expire s now).1 w)
        (sweep_states sink now m (emit sink (expire s now).1 w).0)
        (emit_succeeds total (expire s now).1 w)
        (sweep_states-lookup total now m (emit sink (expire s now).1 w).0 j)

  -- Where every publication succeeds, a sweep at a clock reading expires every known vehicle against it and
  -- evicts the stale routes; it adds no vehicle and forgets none.
  pub sweep_effect :
      (now : ℕ) (b : Bridge) (w : W) (j : Key)
      → ((ev : Event) (w : W) → (sink ev w).1 ≡ none)
      → (GoMap.lookup j (sweep_once sink now b w).0.states
          ≡ option_map (λ s. (expire s now).0) (GoMap.lookup j b.states))
        × ((sweep_once sink now b w).0.routes ≡ (evict now b.routes).0)
  unfolding sweep_once
  sweep_effect now b w j total =
      let (found, fine) = sweep_states-lookup total now b.states w j in
      evict_after-effect now b.routes j (sweep_states sink now b.states w) fine found
