-- ===== src/Recording/Replay.antt =====
-- internal/recording/replay.go: one page of a recording's events, decoded. The columns scan
-- without an error.
use yalb_link.Prelude.{
  ℕ, zero, suc, ◌&&◌, Option, none, some, List, [], ◌∷◌, ◌==◌, if◌then◌else◌, leb, sort, str_eq,
  ◌⊎◌, inl, inr,
}
use yalb_link.Recording.Database.{Database, DbError, WriteRecord, keep}
use yalb_link.Recording.Publish.{Message, Wire}

pub record ReplayEvent : Type 0 where
  pub message : Message
  pub occurred_at : ℕ
  pub seq : ℕ

pub data ReplayError : Type 0 where
  query iterating : DbError → ReplayError
  decoding_fleet decoding_telemetry decoding_command unknown_kind : ℕ → ReplayError

pub data Replayed : Type 0 where
  events : List ReplayEvent → Replayed
  failed : ReplayError → Replayed

-- LIMIT, where none is unbounded.
unfoldable pub limited : {A : Type 0} → Option ℕ → List A → List A
limited none xs = xs
limited (some zero) xs = []
limited (some (suc n)) [] = []
limited (some (suc n)) (x ∷ xs) = x ∷ limited (some n) xs

abbrev pub bound_of : ℕ → Option ℕ
bound_of limit = if limit == 0 then none else some limit

-- WHERE recording_id = ? AND seq >= ? ORDER BY seq LIMIT ?
unfoldable pub page : ℕ → ℕ → ℕ → List WriteRecord → List WriteRecord
unfolding limited keep sort
page id from limit rows =
    limited (bound_of limit)
      (sort (λ a b. leb a.seq b.seq) (keep (λ r. r.recording_id == id && leb from r.seq) rows))

abbrev wrapped : {M : Type 0} → (M → Message) → ReplayError → Option M → Message ⊎ ReplayError
wrapped f e none = inr e
wrapped f e (some m) = inl (f m)

unfoldable pub decode : Wire → WriteRecord → Message ⊎ ReplayError
decode wire r =
    if str_eq r.kind "fleet"
    then wrapped Message.fleet (ReplayError.decoding_fleet r.seq) (wire.fleet.unmarshal r.payload)
    else if str_eq r.kind "telemetry"
    then wrapped Message.telemetry (ReplayError.decoding_telemetry r.seq)
        (wire.telemetry.unmarshal r.payload)
    else if str_eq r.kind "command"
    then wrapped Message.command (ReplayError.decoding_command r.seq)
        (wire.command.unmarshal r.payload)
    else inr (ReplayError.unknown_kind r.seq)

abbrev pub replay_event : WriteRecord → Message → ReplayEvent
replay_event r m = record { message = m; occurred_at = r.occurred_at; seq = r.seq }

abbrev pub prepend : WriteRecord → Message ⊎ ReplayError → Replayed → Replayed
prepend r (inr e) rest = Replayed.failed e
prepend r (inl m) (Replayed.failed e) = Replayed.failed e
prepend r (inl m) (Replayed.events es) = Replayed.events (replay_event r m ∷ es)

-- The loop over the rows.
unfoldable pub decode_rows : Wire → List WriteRecord → Replayed
unfolding decode
decode_rows wire [] = Replayed.events []
decode_rows wire (r ∷ rs) = prepend r (decode wire r) (decode_rows wire rs)

-- rows.Err, after the rows that came decoded.
abbrev pub ended : DbError → Replayed → Replayed
ended e (Replayed.failed x) = Replayed.failed x
ended e (Replayed.events es) = Replayed.failed (ReplayError.iterating e)

-- The iteration, which the driver may break off with an error after a number of rows.
abbrev pub iterated : Wire → Option (ℕ × DbError) → List WriteRecord → Replayed
iterated wire none rows = decode_rows wire rows
iterated wire (some (n, e)) rows = ended e (decode_rows wire (limited (some n) rows))

unfoldable pub replay_from :
    Wire → Option DbError → Option (ℕ × DbError) → ℕ → ℕ → ℕ → Database → Replayed
unfolding decode_rows page limited
replay_from wire (some e) broken id from limit db = Replayed.failed (ReplayError.query e)
replay_from wire none broken id from limit db = iterated wire broken (page id from limit db.events)

-- Replay
unfoldable pub replay : Wire → Option DbError → Option (ℕ × DbError) → ℕ → Database → Replayed
unfolding replay_from
replay wire fault broken id db = replay_from wire fault broken id 0 0 db
