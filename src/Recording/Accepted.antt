-- ===== src/Recording/Accepted.antt =====
-- What operations of internal/recording accept, and where that goes.
use mathlib.Core.List.{append_assoc, append-nil}
use yalb_link.Prelude.{
  ℕ, ◌+◌, ◌≡◌, ◌∙◌, ap, sym, refl, Option, none, some, List, [], ◌∷◌, ◌++◌, if◌then◌else◌, ltb,
  length, Bool-cases, inl, inr, nat_eq,
}
use yalb_link.Recording.Database.{WriteRecord, keep}
use yalb_link.Recording.Flushed.{queued, trace}
use yalb_link.Recording.Publish.{
  Message, Persistable, Wire, draft, enqueue, enqueue_to, marshal, numbered, persistable,
  publish_encoded, publish_persistable,
}
use yalb_link.Proto.{Timestamp}
use yalb_link.Recording.Store.{Active, Item, Store, command_item, record_item}
use yalb_link.Recording.Sub.{keep-append}
use yalb_link.Recording.Writer.{of_id}
use yalb_link.Recording.Lifecycle.{}
use yalb_link.Recording.World.{Op, World, step}

-- The record that an event becomes, before it is numbered, if it is persisted.
abbrev pub encoded : Message → Timestamp → Option (List ℕ) → Option WriteRecord
encoded m at none = none
encoded m at (some bytes) = some (draft m at bytes)

abbrev pub drafted : Wire → Persistable → Option WriteRecord
drafted wire (Persistable.persist m at) = encoded m at (marshal wire m)
drafted wire _ = none

-- What enqueue puts into the channel.
abbrev pub entered : Store → Option WriteRecord → Option Active → List WriteRecord
entered s none found = []
entered s (some r) none = []
entered s (some r) (some a) =
    if s.closed then [] else if ltb (length s.items) s.limits.queue then numbered a r ∷ [] else []

-- The records that an operation accepts.
unfoldable pub accepted_by : Wire → Op → World → List WriteRecord
unfolding persistable marshal
accepted_by wire (Op.publishes ev) w =
    entered w.store (drafted wire (persistable wire ev)) w.store.current
accepted_by wire _ w = []

-- The records that a run accepts, in order.
unfoldable pub accepted : Wire → List Op → World → List WriteRecord
unfolding accepted_by
accepted wire [] w = []
accepted wire (op ∷ ops) w = accepted_by wire op w ++ accepted wire ops (step wire op w)

pub queued-append : (is js : List Item) → queued (is ++ js) ≡ queued is ++ queued js
unfolding queued
queued-append [] js = refl
queued-append (record_item r ∷ is) js = ap (λ l. r ∷ l) (queued-append is js)
queued-append (command_item c ∷ is) js = queued-append is js

-- A channel that gained records at its end.
pub grown-trace :
    (id : ℕ) (s t : Store) (i : Item)
    → t.db.events ≡ s.db.events
    → t.writer.batch ≡ s.writer.batch
    → t.items ≡ s.items ++ (i ∷ [])
    → trace id t ≡ trace id s ++ of_id id (queued (i ∷ []))
unfolding trace
grown-trace id s t i e b q =
    ap (λ l. of_id id l ++ of_id id t.writer.batch ++ of_id id (queued t.items)) e
    ∙ ap (λ l. of_id id s.db.events ++ of_id id l ++ of_id id (queued t.items)) b
    ∙ ap (λ l. of_id id s.db.events ++ of_id id s.writer.batch ++ of_id id l)
        (ap queued q ∙ queued-append s.items (i ∷ []))
    ∙ ap (λ l. of_id id s.db.events ++ of_id id s.writer.batch ++ l)
        (keep-append _ (queued s.items) (queued (i ∷ [])))
    ∙ sym (append_assoc (of_id id s.db.events ++ of_id id s.writer.batch) _ _)

enqueue_to-trace :
    (s : Store) (r : WriteRecord) (found : Option Active) (id : ℕ)
    → trace id (enqueue_to s r found) ≡ trace id s ++ of_id id (entered s (some r) found)
unfolding keep queued trace
enqueue_to-trace s r none id = sym (append-nil (trace id s))
enqueue_to-trace s r (some a) id = elim (Bool-cases s.closed) [
  | inl shut ↦ rw shut (sym (append-nil (trace id s)))
  | inr serving ↦ elim (Bool-cases (ltb (length s.items) s.limits.queue)) [
    | inr full ↦ rw (serving, full) (sym (append-nil (trace id s)))
    | inl room ↦
        rw (serving, room)
          (grown-trace id s
            (record s {
              current = some (record a { next_seq = a.next_seq + 1 });
              items = s.items ++ (record_item (numbered a r) ∷ []);
            })
            (record_item (numbered a r)) refl refl refl)
  ]
]

pub publish_persistable-trace :
    (wire : Wire) (p : Persistable) (s : Store) (id : ℕ)
    → trace id (publish_persistable wire p s)
      ≡ trace id s ++ of_id id (entered s (drafted wire p) s.current)
unfolding trace enqueue
publish_persistable-trace wire Persistable.invalid s id = sym (append-nil (trace id s))
publish_persistable-trace wire Persistable.nothing s id = sym (append-nil (trace id s))
publish_persistable-trace wire (Persistable.persist m at) s id = sent (marshal wire m)
  where
    sent :
        (bytes : Option (List ℕ))
        → trace id (publish_encoded m at bytes s)
          ≡ trace id s ++ of_id id (entered s (encoded m at bytes) s.current)
    sent none = sym (append-nil (trace id s))
    sent (some bytes) = enqueue_to-trace s (draft m at bytes) s.current id
