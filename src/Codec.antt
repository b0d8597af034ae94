-- ===== src/Codec.antt =====
-- internal/codec: the identities and timeouts that the other packages share, link labels and
-- addresses. A duration is in milliseconds where the code uses it so.
pub mod Encode
pub mod Decode
use yalb_link.Prelude.{ℕ, String}

-- GCSSystemID, GCSComponentID, AutopilotComponentID
abbrev pub gcs_system_id : ℕ
gcs_system_id = 255

abbrev pub gcs_component_id : ℕ
gcs_component_id = 190

abbrev pub autopilot_component_id : ℕ
autopilot_component_id = 1

-- HeartbeatTTL, 60 s
abbrev pub heartbeat_ttl_ms : ℕ
heartbeat_ttl_ms = 60000

-- LinkID: the label of an open channel.
abbrev pub LinkId : Type 0
LinkId = String

-- CmdComponentArmDisarm, CmdSetMessageInterval
abbrev pub cmd_component_arm_disarm : ℕ
cmd_component_arm_disarm = 400

abbrev pub cmd_set_message_interval : ℕ
cmd_set_message_interval = 511

pub record Target : Type 0 where
  pub system_id : ℕ
  pub component_id : ℕ

-- What the transport answers to a write: the link is unknown (ErrUnknownLink), or it failed otherwise.
pub data WriteError : Type 0 where
  unknown_link other : WriteError
