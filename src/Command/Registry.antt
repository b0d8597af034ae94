-- ===== src/Command/Registry.antt =====
-- The state of internal/command/registry.go and its operations on one key: admission, settlement,
-- resolution, quarantine, and the acknowledgements that Publish hands over. The channel of a pending
-- command, of capacity one, is the acknowledgement it holds. A clock reading is in nanoseconds, each
-- reading an argument of its own; a Duration that is not positive is 0.
use yalb_link.Prelude.{
  ℕ, pos, ◌+◌, ◌-◌, ◌%◌, ◌^◌, ◌≡◌, ◌↔◌, Bool, true, ◌&&◌, Option, none, some, [], ◌==◌, Eq, arith,
  ltb, leb, if◌then◌else◌, String, str_eq,
}
use yalb_link.GoMap
use yalb_link.GoMap.{GoMap}
use yalb_link.Codec.{autopilot_component_id, cmd_component_arm_disarm}
use yalb_link.Proto.{Timestamp}
use yalb_link.Proto.Transactions.{ArmState, CommandAck, CommandState, CommandTransaction}

pub record Key : Type 0 where
  pub sys_id : ℕ
  pub comp_id : ℕ
  pub command : ℕ

abbrev pub key_beq : Key → Key → Bool
key_beq a b = a.sys_id == b.sys_id && (a.comp_id == b.comp_id && a.command == b.command)

pub key_beq_iff : (a b : Key) → (key_beq a b ≡ true) ↔ (a ≡ b)
key_beq_iff a b = ground arith

instance abbrev pub key_eq : Eq Key
key_eq = record { beq = key_beq; beq_iff = key_beq_iff }

pub record Pending : Type 0 where
  pub tx : CommandTransaction
  pub ack : Option CommandAck

pub record Registry : Type 0 where
  pub timeout : ℕ
  pub quarantine : ℕ
  pub epoch : String
  pub inflight : GoMap Key Pending
  pub poisoned : GoMap Key CommandTransaction
  pub quarantined : GoMap Key Timestamp
  pub next_id : ℕ

-- 3 s and 30 s
abbrev pub default_timeout : ℕ
default_timeout = 3000000000

abbrev pub default_resolution_quarantine : ℕ
default_resolution_quarantine = 30000000000

abbrev pub operator_label : String
operator_label = "local-operator"

unfoldable pub timeout : Registry → ℕ
timeout r = if ltb 0 r.timeout then r.timeout else default_timeout

unfoldable pub quarantine : Registry → ℕ
quarantine r = if ltb 0 r.quarantine then r.quarantine else default_resolution_quarantine

-- A registry whose maps are not made yet: a read of a nil map finds nothing.
unfoldable pub new_registry : ℕ → ℕ → String → Registry
new_registry timeout quarantine epoch = record {
  timeout = timeout;
  quarantine = quarantine;
  epoch = epoch;
  inflight = [];
  poisoned = [];
  quarantined = [];
  next_id = 0;
}

-- initLocked, with what newEpoch draws if it is called.
unfoldable pub init_locked : String → Registry → Registry
init_locked drawn r = if str_eq r.epoch "" then record r { epoch = drawn } else r

abbrev pub arm_key : ℕ → Key
arm_key sys_id = record {
  sys_id = sys_id;
  comp_id = autopilot_component_id;
  command = cmd_component_arm_disarm;
}

unfoldable pub arm_state : Bool → ArmState
arm_state arm = if arm then ArmState.armed else ArmState.disarmed

unfoldable pub remaining : Key → Timestamp → Registry → Option Timestamp → Registry × Option ℕ
remaining k now r none = (r, none)
remaining k now r (some until) =
    if leb until now
    then (record r { quarantined = GoMap.delete k r.quarantined }, none)
    else (r, some (until - now))

-- remainingQuarantineLocked
unfoldable pub remaining_quarantine : Key → Timestamp → Registry → Registry × Option ℕ
unfolding remaining
remaining_quarantine k now r = remaining k now r (GoMap.lookup k r.quarantined)

unfoldable pub quarantine_remaining : String → ℕ → Timestamp → Registry → Registry × Option ℕ
quarantine_remaining drawn sys_id now r =
    remaining_quarantine (arm_key sys_id) now (init_locked drawn r)

-- The transaction that Arm opens.
unfoldable pub new_tx : Key → Bool → ℕ → String → Timestamp → CommandTransaction
unfolding arm_state
new_tx k arm id epoch now = record {
  id = id;
  vehicle_id = record { system_id = k.sys_id; component_id = k.comp_id };
  command = k.command;
  state = CommandState.pending;
  result = 0;
  result_param2 = pos 0;
  issued_at = now;
  settled_at = none;
  requested_state = arm_state arm;
  operator_label = operator_label;
  registry_epoch = epoch;
  resolution = none;
}

-- Why a key takes no command, or the transaction it now has in flight.
pub data Admission : Type 0 where
  poisoned : CommandTransaction → Admission
  quarantined : ℕ → Admission
  in_flight : Admission
  admitted : CommandTransaction → Admission

unfoldable pub admit_idle :
    Key → Bool → Timestamp → Registry → Option Pending → Registry × Admission
admit_idle k arm issued r (some busy) = (r, Admission.in_flight)
admit_idle k arm issued r none =
    let id = (r.next_id + 1) % 2 ^ 32 in
    let tx = new_tx k arm id r.epoch issued in
    (
      record r {
        next_id = id;
        inflight = GoMap.insert k (record { tx = tx; ack = none }) r.inflight;
      },
      Admission.admitted tx,
    )

unfoldable pub admit_free : Key → Bool → Timestamp → Registry × Option ℕ → Registry × Admission
unfolding admit_idle
admit_free k arm issued (r, some left) = (r, Admission.quarantined left)
admit_free k arm issued (r, none) = admit_idle k arm issued r (GoMap.lookup k r.inflight)

unfoldable pub admit_unpoisoned :
    Key → Bool → Timestamp → Timestamp → Registry → Option CommandTransaction → Registry × Admission
unfolding admit_free
admit_unpoisoned k arm checked issued r (some tx) = (r, Admission.poisoned tx)
admit_unpoisoned k arm checked issued r none =
    admit_free k arm issued (remaining_quarantine k checked r)

-- The locked section of Arm before its write; `checked` and `issued` are its two clock readings.
unfoldable pub admit : Key → Bool → Timestamp → Timestamp → Registry → Registry × Admission
unfolding admit_unpoisoned
admit k arm checked issued r = admit_unpoisoned k arm checked issued r (GoMap.lookup k r.poisoned)
