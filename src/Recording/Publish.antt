-- ===== src/Recording/Publish.antt =====
-- internal/recording/recorder.go: what of an event is persisted, and its numbering and queueing. The protobuf
-- library's encoding and its test of a timestamp are the parameter `Wire`.
use yalb_link.Prelude.{
  ℕ, ◌+◌, ◌≡◌, Bool, Option, none, some, List, [], ◌∷◌, ◌++◌, if◌then◌else◌, String, ltb, length,
}
use yalb_link.Proto.{FleetEvent, Timestamp}
use yalb_link.Proto.Telemetry.{Payload, TelemetryEvent}
use yalb_link.Proto.Transactions.{CommandTransaction}
use yalb_link.Vehicle.Event.{Event}
use yalb_link.Vehicle.Stamps.{observed_at}
use yalb_link.Recording.Database.{WriteRecord}
use yalb_link.Recording.Store.{Active, Store, record_item, unix_milli}

-- proto.Marshal and proto.Unmarshal of one message type, `none` on an error. As the library documents, what
-- was marshalled is read back.
pub record Format (M : Type 0) : Type 0 where
  pub marshal : M → Option (List ℕ)
  pub unmarshal : List ℕ → Option M
  pub reads_back : (m : M) (bytes : List ℕ) → marshal m ≡ some bytes → unmarshal bytes ≡ some m

pub record Wire : Type 0 where
  pub fleet : Format FleetEvent
  pub telemetry : Format TelemetryEvent
  pub command : Format CommandTransaction
  -- timestamppb's IsValid
  pub is_valid : Timestamp → Bool

-- The messages that a recording holds.
pub data Message : Type 0 where
  fleet : FleetEvent → Message
  telemetry : TelemetryEvent → Message
  command : CommandTransaction → Message

-- What persistable returns: an error, nothing to persist, or a message and its time.
pub data Persistable : Type 0 where
  invalid nothing : Persistable
  persist : Message → Timestamp → Persistable

abbrev pub kind_of : Message → String
kind_of (Message.fleet e) = "fleet"
kind_of (Message.telemetry e) = "telemetry"
kind_of (Message.command tx) = "command"

abbrev pub stamped : Wire → Message → Option Timestamp → Persistable
stamped wire m none = Persistable.invalid
stamped wire m (some at) =
    if wire.is_valid at then Persistable.persist m at else Persistable.invalid

-- telemetryTimestamp: every payload of the schema has an observed_at field.
abbrev pub telemetry_timestamp : Option Payload → Option Timestamp
telemetry_timestamp none = none
telemetry_timestamp (some p) = observed_at p

abbrev pub command_timestamp : CommandTransaction → Option Timestamp → Timestamp
command_timestamp tx none = tx.issued_at
command_timestamp tx (some at) = at

unfoldable pub persistable : Wire → Event → Persistable
persistable wire (Event.fleet e) = stamped wire (Message.fleet e) e.occurred_at
persistable wire (Event.telemetry e) =
    stamped wire (Message.telemetry e) (telemetry_timestamp e.payload)
persistable wire (Event.command tx) =
    stamped wire (Message.command tx) (some (command_timestamp tx tx.settled_at))
persistable wire _ = Persistable.nothing

unfoldable pub marshal : Wire → Message → Option (List ℕ)
marshal wire (Message.fleet e) = wire.fleet.marshal e
marshal wire (Message.telemetry e) = wire.telemetry.marshal e
marshal wire (Message.command tx) = wire.command.marshal tx

-- The record that enqueue numbers.
abbrev pub numbered : Active → WriteRecord → WriteRecord
numbered a r = record r { recording_id = a.id; seq = a.next_seq + 1 }

abbrev pub enqueue_to : Store → WriteRecord → Option Active → Store
enqueue_to s r none = s
enqueue_to s r (some a) =
    let counted : Store = record s { current = some (record a { next_seq = a.next_seq + 1 }) } in
    if s.closed
    then s
    else if ltb (length s.items) s.limits.queue
    then record counted { items = s.items ++ (record_item (numbered a r) ∷ []) }
    else record counted { dropped = s.dropped + 1 }

unfoldable pub enqueue : WriteRecord → Store → Store
enqueue r s = enqueue_to s r s.current

-- A message that is encoded, before it is numbered.
abbrev pub draft : Message → Timestamp → List ℕ → WriteRecord
draft m at bytes = record {
  payload = bytes;
  kind = kind_of m;
  recording_id = 0;
  seq = 0;
  occurred_at = unix_milli at;
}

abbrev pub rejected : Store → Store
rejected s = record s { encode_errors = s.encode_errors + 1 }

abbrev pub publish_encoded : Message → Timestamp → Option (List ℕ) → Store → Store
publish_encoded m at none s = rejected s
publish_encoded m at (some bytes) s = enqueue (draft m at bytes) s

abbrev pub publish_persistable : Wire → Persistable → Store → Store
publish_persistable wire Persistable.invalid s = rejected s
publish_persistable wire Persistable.nothing s = s
publish_persistable wire (Persistable.persist m at) s = publish_encoded m at (marshal wire m) s

unfoldable pub publish : Wire → Event → Store → Store
unfolding persistable marshal enqueue
publish wire event s = publish_persistable wire (persistable wire event) s
