-- ===== src/Recording/Numbers.antt =====
-- internal/recording: the sequence numbers of the records that a run accepts.
use mathlib.Core.Path.{subst}
use yalb_link.Prelude.{
  ℕ, ◌+◌, ◌<◌, ◌≤◌, ◌≡◌, ◌≢◌, sym, refl, true, ◌⊎◌, inl, inr, Option, none, some, List, [], ◌∷◌,
  ◌++◌, ◌==◌, arith, Bool-cases, nat_eq, ltb, length,
}
use yalb_link.Recording.Accepted.{drafted, encoded, entered}
use yalb_link.Recording.Database.{WriteRecord, keep}
use yalb_link.Recording.Lifecycle.{}
use yalb_link.Recording.Persisted.{Rising}
use yalb_link.Recording.Publish.{
  Persistable, Wire, draft, enqueue, enqueue_to, marshal, publish_encoded, publish_persistable,
}
use yalb_link.Recording.Quiet.{Quiet}
use yalb_link.Recording.Store.{Active, Store}
use yalb_link.Recording.World.{Call, Phase, World}
use yalb_link.Recording.Writer.{of_id}

-- `n` is at least every number given for the recording `id` so far. A recording that may still be active is
-- known to the table, and gives larger numbers.
abbrev pub ActiveOk : ℕ → ℕ → ℕ → Active → Type 0
ActiveOk n id last a = (a.id ≤ last) × ((a.id ≢ id) ⊎ (n ≤ a.next_seq))

abbrev pub CurrentOk : ℕ → ℕ → ℕ → Option Active → Type 0
CurrentOk n id last none = Unit
CurrentOk n id last (some a) = ActiveOk n id last a

-- While a recording starts or its stop is being sent, none is active.
abbrev pub PhaseOk : ℕ → ℕ → ℕ → Option Active → Phase → Type 0
PhaseOk n id last cur Phase.idle = Unit
PhaseOk n id last cur (Phase.sending (Call.starting i) c) =
    (cur ≡ none) × ActiveOk n id last (record { id = i; next_seq = 0 })
PhaseOk n id last cur (Phase.sending (Call.stopping a) c) = (cur ≡ none) × ActiveOk n id last a
PhaseOk n id last cur (Phase.waiting (Call.starting i) c) =
    (cur ≡ none) × ActiveOk n id last (record { id = i; next_seq = 0 })
PhaseOk n id last cur _ = Unit

-- `seen`: nothing was numbered for the recording, or its id is taken.
abbrev pub Ready : ℕ → ℕ → ℕ → Option Active → Phase → Type 0
Ready n id last cur phase =
    CurrentOk n id last cur × PhaseOk n id last cur phase × ((n ≡ 0) ⊎ (id ≤ last))

abbrev pub ReadyWorld : ℕ → ℕ → World → Type 0
ReadyWorld n id w = Ready n id w.store.db.last_id w.store.current w.phase

-- The last number of a list, or the one before it.
abbrev pub last_seq : ℕ → List WriteRecord → ℕ
last_seq n [] = n
last_seq n (r ∷ rs) = last_seq r.seq rs

pub Rising-append :
    (n : ℕ) (xs ys : List WriteRecord)
    → Rising n xs
    → Rising (last_seq n xs) ys
    → Rising n (xs ++ ys)
Rising-append n [] ys h k = k
Rising-append n (x ∷ xs) ys h k = (h.0, Rising-append x.seq xs ys h.1 k)

-- Losing the active recording, and nothing else.
pub phase-none :
    (n id last : ℕ) (cur : Option Active) (phase : Phase)
    → PhaseOk n id last cur phase
    → PhaseOk n id last none phase
phase-none n id last cur Phase.idle h = tt
phase-none n id last cur (Phase.sending (Call.starting i) c) h = (refl, h.1)
phase-none n id last cur (Phase.sending (Call.stopping a) c) h = (refl, h.1)
phase-none n id last cur (Phase.sending Call.deleting c) h = tt
phase-none n id last cur (Phase.sending Call.closing c) h = tt
phase-none n id last cur (Phase.waiting (Call.starting i) c) h = (refl, h.1)
phase-none n id last cur (Phase.waiting _ c) h = tt

pub Quiet-Ready :
    (n id : ℕ) (s t : Store) (phase : Phase)
    → Quiet s t
    → Ready n id s.db.last_id s.current phase
    → Ready n id t.db.last_id t.current phase
Quiet-Ready n id s t phase q h =
    subst (λ l. Ready n id l t.current phase) (sym q.last) (active q.active)
  where
    active : (t.current ≡ none) ⊎ (t.current ≡ s.current) → Ready n id s.db.last_id t.current phase
    active (inl gone) =
        subst (λ c. Ready n id s.db.last_id c phase) (sym gone)
          (tt, phase-none n id s.db.last_id s.current phase h.1, h.2)
    active (inr same) = subst (λ c. Ready n id s.db.last_id c phase) (sym same) h

-- A phase that goes on while a recording is active does not start or stop one.
phase-active :
    (n m id last : ℕ) (a b : Active) (phase : Phase)
    → PhaseOk n id last (some a) phase
    → PhaseOk m id last (some b) phase
phase-active n m id last a b Phase.idle h = tt
phase-active n m id last a b (Phase.sending (Call.starting i) c) h = absurd (cc (h.0))
phase-active n m id last a b (Phase.sending (Call.stopping x) c) h = absurd (cc (h.0))
phase-active n m id last a b (Phase.sending Call.deleting c) h = tt
phase-active n m id last a b (Phase.sending Call.closing c) h = tt
phase-active n m id last a b (Phase.waiting (Call.starting i) c) h = absurd (cc (h.0))
phase-active n m id last a b (Phase.waiting _ c) h = tt

-- What one operation accepts rises, and leaves the next ready.
abbrev pub Advances : ℕ → ℕ → List WriteRecord → World → Type 0
Advances n id rs w = Rising n rs × ReadyWorld (last_seq n rs) id w

enqueue_to-Advances :
    (n id : ℕ) (r : WriteRecord) (w : World) (found : Option Active)
    → w.store.current ≡ found
    → ReadyWorld n id w
    → Advances n id
        (of_id id (entered w.store (some r) found))
        (record w { store = enqueue_to w.store r found })
unfolding keep
enqueue_to-Advances n id r w none q h = (tt, h)
enqueue_to-Advances n id r w (some a) q h = elim (Bool-cases w.store.closed) [
  | inl shut ↦ rw shut (tt, h)
  | inr serving ↦ elim (Bool-cases (ltb (length w.store.items) w.store.limits.queue)) [
    | inr full ↦ rw (serving, full) (tt, next n (grown_up now.0.1) now.2)
    | inl room ↦ elim (Bool-cases (a.id == id)) [
      | inr miss ↦ rw (serving, room, miss) (tt, next n (inl (λ e. ground arith)) now.2)
      | inl hit ↦
          rw (serving, room, hit)
            (
              (below now.0.1 hit, tt),
              next (a.next_seq + 1) (inr (omega arith)) (inr (ground (arith, now.0.0))),
            )
    ]
  ]
]
  where
    last : ℕ
    last = w.store.db.last_id

    now : Ready n id last (some a) w.phase
    now = subst (λ c. Ready n id last c w.phase) q h

    after : Active
    after = record a { next_seq = a.next_seq + 1 }

    next :
        (m : ℕ)
        → (a.id ≢ id) ⊎ (m ≤ a.next_seq + 1)
        → (m ≡ 0) ⊎ (id ≤ last)
        → Ready m id last (some after) w.phase
    next m above seen = ((now.0.0, above), phase-active n m id last a after w.phase now.1, seen)

    grown_up : (a.id ≢ id) ⊎ (n ≤ a.next_seq) → (a.id ≢ id) ⊎ (n ≤ a.next_seq + 1)
    grown_up (inl miss) = inl miss
    grown_up (inr le) = inr (omega (arith, le))

    below : (a.id ≢ id) ⊎ (n ≤ a.next_seq) → (a.id == id) ≡ true → n < a.next_seq + 1
    below (inl miss) hit = absurd (miss (ground arith))
    below (inr le) hit = omega (arith, le)

pub publish-Advances :
    (wire : Wire) (n id : ℕ) (w : World) (p : Persistable)
    → ReadyWorld n id w
    → Advances n id
        (of_id id (entered w.store (drafted wire p) w.store.current))
        (record w { store = publish_persistable wire p w.store })
unfolding keep enqueue
publish-Advances wire n id w Persistable.invalid h = (tt, h)
publish-Advances wire n id w Persistable.nothing h = (tt, h)
publish-Advances wire n id w (Persistable.persist m at) h = sent_bytes (marshal wire m)
  where
    sent_bytes :
        (bytes : Option (List ℕ))
        → Advances n id
            (of_id id (entered w.store (encoded m at bytes) w.store.current))
            (record w { store = publish_encoded m at bytes w.store })
    sent_bytes none = (tt, h)
    sent_bytes (some bytes) = enqueue_to-Advances n id (draft m at bytes) w w.store.current refl h
