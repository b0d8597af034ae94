-- ===== src/Vehicle/Stamps.antt =====
-- Whose and when: the identity and time on the events of internal/vehicle/fold.go.
use yalb_link.Prelude.{ℕ, ◌≡◌, Option, none, some}
use yalb_link.Proto.{VehicleId, Timestamp}
use yalb_link.Proto.Telemetry.{Payload, TelemetryEvent}
use yalb_link.Vehicle.Event.{Event, timestamp_of}
use yalb_link.Vehicle.State.{State}
use yalb_link.Vehicle.Fold.{Inbound, telemetry, protocol}

-- The observed_at of whichever payload is set.
abbrev pub observed_at : Payload → Option Timestamp
observed_at (Payload.attitude p) = p.observed_at
observed_at (Payload.global_position p) = p.observed_at
observed_at (Payload.gps_raw p) = p.observed_at
observed_at (Payload.vfr_hud p) = p.observed_at
observed_at (Payload.nav_controller_output p) = p.observed_at
observed_at (Payload.system_status p) = p.observed_at
observed_at (Payload.battery_status p) = p.observed_at
observed_at (Payload.radio_status p) = p.observed_at
observed_at (Payload.ekf_status_report p) = p.observed_at
observed_at (Payload.mission_current p) = p.observed_at
observed_at (Payload.home_position p) = p.observed_at
observed_at (Payload.status_text p) = p.observed_at

abbrev pub sender : Inbound → VehicleId
sender inb = record { system_id = inb.decoded.sys_id; component_id = inb.decoded.comp_id }

abbrev pub ObservedAt : Timestamp → Option Payload → Type 0
ObservedAt at none = Unit
ObservedAt at (some p) = observed_at p ≡ some at

-- The telemetry event comes from a decoded one, of which it keeps the vehicle.
abbrev SameVehicle : TelemetryEvent → Option TelemetryEvent → Type 0
SameVehicle t none = ⊥
SameVehicle t (some evt) = t.vehicle_id ≡ evt.vehicle_id

-- An event of the frame `inb` at the reading `now_ms`; the fold makes no command transaction.
abbrev pub IsStamped : Inbound → ℕ → Event → Type 0
IsStamped inb now_ms (Event.fleet f) =
    (f.vehicle_id ≡ some (sender inb)) × (f.occurred_at ≡ some (timestamp_of now_ms))
IsStamped inb now_ms (Event.telemetry t) =
    SameVehicle t inb.decoded.telemetry × ObservedAt (timestamp_of now_ms) t.payload
IsStamped inb now_ms (Event.warning w) = (w.vehicle_id ≡ sender inb) × (w.occurred_ms ≡ now_ms)
IsStamped inb now_ms (Event.protocol p) = inb.decoded.transaction ≡ some p
IsStamped inb now_ms (Event.command c) = ⊥
