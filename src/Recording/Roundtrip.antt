-- ===== src/Recording/Roundtrip.antt =====
-- What internal/recording replays of what it recorded.
use yalb_link.Prelude.{
  sym, ◌∙◌, ◌/◌, ◌⊎◌, ℕ, ◌+◌, ◌<◌, ◌≡◌, ap, refl, true, false, none, some, List, [], ◌∷◌, ◌++◌, All,
  inl, inr, arith, length, ltb,
}
use yalb_link.Proto.{Timestamp}
use yalb_link.Proto.Telemetry.{Payload}
use yalb_link.Vehicle.Event.{Event}
use yalb_link.Vehicle.Stamps.{observed_at}
use yalb_link.Recording.Database.{Database, WriteRecord}
use yalb_link.Recording.Publish.{
  Message, Persistable, Wire, draft, enqueue, marshal, numbered, persistable, publish, stamped,
  telemetry_timestamp, command_timestamp,
}
use yalb_link.Recording.Replay.{ReplayError, ReplayEvent, Replayed, decode, decode_rows}
use yalb_link.Recording.Store.{Active, Store, record_item}
use yalb_link.Recording.Sub.{Sub}
use yalb_link.Recording.World.{World}

-- A message survives its encoding, whatever number it is given.
decode-draft :
    (wire : Wire) (a : Active) (m : Message) (at : Timestamp) (bytes : List ℕ)
    → marshal wire m ≡ some bytes
    → decode wire (numbered a (draft m at bytes)) ≡ inl m
unfolding decode marshal
decode-draft wire a (Message.fleet e) at bytes h = rw (wire.fleet.reads_back e bytes h) refl
decode-draft wire a (Message.telemetry e) at bytes h = rw (wire.telemetry.reads_back e bytes h) refl
decode-draft wire a (Message.command tx) at bytes h = rw (wire.command.reads_back tx bytes h) refl

-- What a recording is to hold of an event, and its time: a fleet event as it occurred, a telemetry event as its
-- payload was observed, a command as it was settled or, before that, issued.
abbrev pub Records : Event → Message → Timestamp → Type 0
Records (Event.fleet e) m at = (m ≡ Message.fleet e) × (e.occurred_at ≡ some at)
Records (Event.telemetry e) m at =
    (m ≡ Message.telemetry e) × ((p : Payload) × (e.payload ≡ some p) × (observed_at p ≡ some at))
Records (Event.command tx) m at =
    (m ≡ Message.command tx)
    × ((tx.settled_at ≡ some at) ⊎ ((tx.settled_at ≡ none) × (tx.issued_at ≡ at)))
Records _ m at = ⊥

stamped-valid :
    (wire : Wire) (given m : Message) (at : Timestamp)
    → wire.is_valid at ≡ true
    → m ≡ given
    → stamped wire given (some at) ≡ Persistable.persist m at
stamped-valid wire given m at valid is_it =
    let fine : stamped wire given (some at) ≡ Persistable.persist given at = rw valid refl in
    fine ∙ ap (λ x. Persistable.persist x at) (sym is_it)

Records-persistable :
    (wire : Wire) (ev : Event) (m : Message) (at : Timestamp)
    → Records ev m at
    → wire.is_valid at ≡ true
    → persistable wire ev ≡ Persistable.persist m at
unfolding persistable
Records-persistable wire (Event.fleet e) m at (is_it, occurred) valid =
    ap (stamped wire (Message.fleet e)) occurred
    ∙ stamped-valid wire (Message.fleet e) m at valid is_it
Records-persistable wire (Event.telemetry e) m at (is_it, (p, holds, observed)) valid =
    ap (stamped wire (Message.telemetry e)) (ap telemetry_timestamp holds ∙ observed)
    ∙ stamped-valid wire (Message.telemetry e) m at valid is_it
Records-persistable wire (Event.command tx) m at (is_it, inl settled) valid =
    ap (λ o. stamped wire (Message.command tx) (some (command_timestamp tx o))) settled
    ∙ stamped-valid wire (Message.command tx) m at valid is_it
Records-persistable wire (Event.command tx) m at (is_it, inr (pending, issued)) valid =
    ap (stamped wire (Message.command tx))
      (ap (λ o. some (command_timestamp tx o)) pending ∙ ap some issued)
    ∙ stamped-valid wire (Message.command tx) m at valid is_it
Records-persistable wire (Event.warning w) m at h valid = absurd h
Records-persistable wire (Event.protocol p) m at h valid = absurd h

-- While a recording is active and the channel has room, publishing a fleet event, a telemetry event or a
-- command with a valid time puts one record into the channel: it decodes to that very event, and carries the
-- recording, the next sequence number and the event's own time in milliseconds. That time is when a fleet
-- event occurred, when a telemetry payload was observed, when a command was settled or else issued.
pub decode-publish :
    (wire : Wire) (ev : Event) (m : Message) (at : Timestamp) (bytes : List ℕ) (s : Store)
    (a : Active)
    → Records ev m at
    → wire.is_valid at ≡ true
    → marshal wire m ≡ some bytes
    → s.current ≡ some a
    → s.closed ≡ false
    → length s.items < s.limits.queue
    → (r : WriteRecord) × ((publish wire ev s).items ≡ s.items ++ (record_item r ∷ []))
      × (decode wire r ≡ inl m)
      × (r.recording_id ≡ a.id)
      × (r.seq ≡ a.next_seq + 1)
      × (r.occurred_at ≡ at / 1000000)
unfolding publish enqueue
decode-publish wire ev m at bytes s a recorded valid e c o room =
    let free : ltb (length s.items) s.limits.queue ≡ true = ground arith in
    let p = Records-persistable wire ev m at recorded valid in
    (
      numbered a (draft m at bytes),
      rw (p, e, c, o, free) refl,
      decode-draft wire a m at bytes e,
      refl,
      refl,
      refl,
    )

abbrev Decodes : Wire → WriteRecord → Type 0
Decodes wire r = (m : Message) × (decode wire r ≡ inl m)

-- What the rows decode to, one event for each, with its number and time.
abbrev pub Replays : Wire → List WriteRecord → List ReplayEvent → Type 0
Replays wire [] [] = Unit
Replays wire (r ∷ rs) (e ∷ es) =
    (decode wire r ≡ inl e.message)
    × (e.seq ≡ r.seq)
    × (e.occurred_at ≡ r.occurred_at)
    × Replays wire rs es
Replays wire _ _ = ⊥

-- A replay stops at its first row that does not decode, with that row's error, whatever follows it.
pub decode_rows-first_error :
    (wire : Wire) (good : List WriteRecord) (bad : WriteRecord) (later : List WriteRecord)
    (e : ReplayError)
    → All (Decodes wire) good
    → decode wire bad ≡ inr e
    → decode_rows wire (good ++ (bad ∷ later)) ≡ Replayed.failed e
unfolding decode_rows
decode_rows-first_error wire [] bad later e h q = rw q refl
decode_rows-first_error wire (r ∷ rs) bad later e h q =
    rw (h.0.1, decode_rows-first_error wire rs bad later e h.1 q) refl
