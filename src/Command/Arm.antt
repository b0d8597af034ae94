-- ===== src/Command/Arm.antt =====
-- encodeArm of internal/command/policy.go and Arm of internal/command/registry.go, which composes the
-- locked sections around its write and its wait.
use yalb_link.Prelude.{
  ℕ, zero, suc, Bool, true, false, Option, none, some, List, [], ◌∷◌, String, if◌then◌else◌,
}
use yalb_link.Codec.{LinkId, WriteError, autopilot_component_id, cmd_component_arm_disarm}
use yalb_link.Codec.Encode.{Message, encode_command_long}
use yalb_link.Proto.{Timestamp, Float32}
use yalb_link.Proto.Transactions.{CommandTransaction}
use yalb_link.Routes.{Table, resolve}
use yalb_link.Command.Registry.{Key, Registry, Admission, arm_key, init_locked, admit}
use yalb_link.Command.Settle
use yalb_link.Command.Settle.{Cause, settle}

-- The float32 1.
abbrev float_one : Float32
float_one = 1065353216

-- `none` where the system id is 0.
unfoldable pub encode_arm : ℕ → Bool → Option Message
encode_arm zero arm = none
encode_arm (suc n) arm = some (
    encode_command_long (record { system_id = suc n; component_id = autopilot_component_id })
      cmd_component_arm_disarm 0 (if arm then float_one else 0) 0 0 0 0 0 0)

pub data ArmError : Type 0 where
  invalid_system no_route in_flight : ArmError
  poisoned : CommandTransaction → ArmError
  quarantined : ℕ → ArmError
  write_failed : CommandTransaction → ArmError

-- Arm up to its write: the key and transaction now in flight, the link and the message to write.
pub data Begun : Type 0 where
  refused : ArmError → Begun
  opened : Key → CommandTransaction → LinkId → Message → Begun

unfoldable pub opened_by : Key → LinkId → Message → Registry × Admission → Registry × Begun
opened_by k link msg (r, Admission.poisoned tx) = (r, Begun.refused (ArmError.poisoned tx))
opened_by k link msg (r, Admission.quarantined left) =
    (r, Begun.refused (ArmError.quarantined left))
opened_by k link msg (r, Admission.in_flight) = (r, Begun.refused ArmError.in_flight)
opened_by k link msg (r, Admission.admitted tx) = (r, Begun.opened k tx link msg)

module _ (drawn : String) (sys_id : ℕ) (arm : Bool) (now_ms : ℕ) (checked issued : Timestamp) where
  unfoldable pub routed : Message → Registry → Table × Option LinkId → Table × (Registry × Begun)
  unfolding opened_by
  routed msg r (t, none) = (t, (r, Begun.refused ArmError.no_route))
  routed msg r (t, some link) = (
    t,
    opened_by (arm_key sys_id) link msg
        (admit (arm_key sys_id) arm checked issued (init_locked drawn r)),
  )

  unfoldable pub begin_encoded :
      Option Message → Bool → Table → Registry → Table × (Registry × Begun)
  unfolding routed
  begin_encoded none configured t r = (t, (r, Begun.refused ArmError.invalid_system))
  begin_encoded (some msg) false t r = (t, (r, Begun.refused ArmError.no_route))
  begin_encoded (some msg) true t r =
      routed msg r (resolve (record { sys_id = sys_id; comp_id = autopilot_component_id }) now_ms t)

  -- `configured` says that Source and Routes are set.
  unfoldable pub begin_arm : Bool → Table → Registry → Table × (Registry × Begun)
  unfolding begin_encoded
  begin_arm configured t r = begin_encoded (encode_arm sys_id arm) configured t r

pub data Finished : Type 0 where
  failed : ArmError → Finished
  settled : CommandTransaction → Finished

-- The transactions that a call publishes, its registry and what it returns.
abbrev pub Call : Type 0
Call = List CommandTransaction × (Registry × Finished)

unfoldable pub after_failure : Registry × Option CommandTransaction → Call
after_failure (r, none) = ([], (r, failed ArmError.no_route))
after_failure (r, some tx) = (tx ∷ [], (r, failed (ArmError.write_failed tx)))

unfoldable pub after_settlement : CommandTransaction → Registry × CommandTransaction → Call
after_settlement tx (r, out) = (tx ∷ out ∷ [], (r, settled out))

-- Arm from its write on: what the transport answers, and where the write went through what the
-- registry did during the wait and how the wait ended. `finished` is the reading of the last clock.
unfoldable pub finish_arm :
    Option WriteError → (Registry → Registry) → Cause → Timestamp → Registry × Begun → Call
unfolding after_failure after_settlement
finish_arm answer meanwhile cause finished (r, Begun.refused e) = ([], (r, failed e))
finish_arm none meanwhile cause finished (r, Begun.opened k tx link msg) =
    after_settlement tx (settle k cause finished tx (meanwhile r))
finish_arm (some e) meanwhile cause finished (r, Begun.opened k tx link msg) =
    after_failure (Settle.write_failed k e finished tx r)
