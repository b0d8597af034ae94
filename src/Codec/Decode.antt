-- ===== src/Codec/Decode.antt =====
-- internal/codec/message.go: what the codec makes of a received frame.
use yalb_link.Prelude.{ℕ, Bool, Option, is_some, ◌||◌}
use yalb_link.Proto.Telemetry.{TelemetryEvent}
use yalb_link.Proto.Transactions.{ProtocolEvent}

-- At most one of the two envelopes is set.
pub record Decoded : Type 0 where
  pub telemetry : Option TelemetryEvent
  pub transaction : Option ProtocolEvent
  pub sys_id : ℕ
  pub comp_id : ℕ
  pub seq : ℕ

unfoldable pub handled : Decoded → Bool
handled d = is_some d.telemetry || is_some d.transaction
