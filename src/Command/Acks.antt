-- ===== src/Command/Acks.antt =====
-- What a command in flight of internal/command/registry.go holds, over every order of its sections: its
-- own pending transaction, and at most an acknowledgement that answers it.
use yalb_link.Prelude.{◌≡◌, ◌≢◌, true, Option, none, some, All}
use yalb_link.GoMap
use yalb_link.GoMap.{GoMap}
use yalb_link.Proto.Transactions.{CommandAck, CommandState}
use yalb_link.Vehicle.Event.{Event}
use yalb_link.Command.Registry.{Key, key_eq, Pending, Registry}
use yalb_link.Command.Settle.{is_ours, result_in_progress}

-- A final answer to this key's command, sent to this station.
unfoldable pub Answers : Key → Option CommandAck → Type 0
Answers k none = Unit
Answers k (some ack) =
    (ack.command ≡ k.command) × (ack.result ≢ result_in_progress) × (is_ours ack ≡ true)

unfoldable pub IsPending : Key → Pending → Type 0
IsPending k p =
    (p.tx.state ≡ CommandState.pending)
    × (p.tx.vehicle_id.system_id ≡ k.sys_id)
    × (p.tx.vehicle_id.component_id ≡ k.comp_id)
    × (p.tx.command ≡ k.command)
    × Answers k p.ack

abbrev Pendings : GoMap Key Pending → Type 0
Pendings m = All (λ x. IsPending x.0 x.1) m

abbrev AllPending : Registry → Type 0
AllPending r = Pendings r.inflight
