-- ===== src/Examples/Bridge.antt =====
-- internal/bridge with sinks that only count, on one autopilot.
use mathlib.Core.Option.{map as option_map}
use yalb_link.Prelude.{
  inl, ℕ, suc, pos, pos_part, ◌+◌, ◌/◌, ◌≡◌, true, Option, none, some, [], refl, if◌then◌else◌, leb,
  map, arith,
}
use yalb_link.GoMap
use yalb_link.Codec.{WriteError}
use yalb_link.Codec.Encode.{Floats}
use yalb_link.Proto.{vehicle_discovered}
use yalb_link.Routes.{key_eq, key_beq, new_table, evict}
use yalb_link.Vehicle.Event.{Event, fleet_event}
use yalb_link.Vehicle.Fold.{expire}
use yalb_link.Bridge.Pipeline.{Frame, Bridge, new_bridge, frame_key, frame, sweep_once}
use yalb_link.Bridge.Rates.{
  RateRequester, SinkError, vehicle_key, allow_conflict, trigger, is_autopilot, publish,
}
use yalb_link.Bridge.Frames.{sweep_effect}
use yalb_link.Bridge.Requests.{
  asks_for, policy_of, spacing_ms, frame_id, conflict_spaced, arrival_asked,
}
use yalb_link.Examples.Vehicle.{beat}

-- A sink that counts and never fails.
abbrev counting : Event → ℕ → ℕ × Option SinkError
counting ev n = (suc n, none)

abbrev accepts_all : ℕ → Option WriteError
accepts_all n = none

-- Stand-ins for the float operations, on integers.
abbrev whole : Floats
whole = record {
  f32_of_int = pos_part;
  f64_div = λ a b. a / b;
  f64_to_int32 = pos;
  f64_nonpos = λ a. leb a 0;
}

abbrev autopilot_frame : Frame
autopilot_frame = record {
  sys_id = 7;
  comp_id = 1;
  channel = "udp:10.0.0.2:14550";
  src_ip = "10.0.0.2";
  src_port = pos 14550;
  heartbeat = some beat;
  decoded = record { telemetry = none; transaction = none; sys_id = 7; comp_id = 1; seq = 0 };
  msg_id = 0;
}

abbrev idle : Bridge
idle = new_bridge new_table

abbrev flying : Bridge
flying = (frame counting autopilot_frame 1000 idle 0).0

abbrev requester : RateRequester
requester = record { policy = none; min_conflict_interval = 0; last_conflict_ms = [] }

sweep_effect_example :
    (GoMap.lookup (frame_key autopilot_frame) (sweep_once counting 70000 flying 5).0.states
      ≡ option_map
          (λ s. (expire s 70000).0)
          (GoMap.lookup (frame_key autopilot_frame) flying.states))
    × ((sweep_once counting 70000 flying 5).0.routes ≡ (evict 70000 flying.routes).0)
sweep_effect_example =
    sweep_effect counting 70000 flying 5 (frame_key autopilot_frame) (λ ev w. refl)

abbrev after_conflict : RateRequester
after_conflict = (allow_conflict (frame_id autopilot_frame) 2000 requester).0

conflict_allowed : allow_conflict (frame_id autopilot_frame) 2000 requester ≡ (after_conflict, true)
unfolding allow_conflict GoMap.lookup
conflict_allowed = refl

conflict_spaced_example : (allow_conflict (frame_id autopilot_frame) 3000 after_conflict).1 ≡ (
    if key_beq (vehicle_key (frame_id autopilot_frame)) (vehicle_key (frame_id autopilot_frame))
    then leb (2000 + spacing_ms requester.min_conflict_interval) 3000
    else (allow_conflict (frame_id autopilot_frame) 3000 requester).1)
conflict_spaced_example =
    conflict_spaced (frame_id autopilot_frame) (frame_id autopilot_frame) 2000 3000 requester
      conflict_allowed

abbrev discovery : Event
discovery = fleet_event vehicle_discovered (frame_id autopilot_frame) none 1000

discovery-triggers : (trigger discovery requester).1 ≡ some (frame_id autopilot_frame)
unfolding trigger fleet_event is_autopilot
discovery-triggers = refl

arrival_asked_example :
    (publish whole accepts_all
      (fleet_event vehicle_discovered (frame_id autopilot_frame) (some beat) 1000)
      1000
      (frame counting autopilot_frame 1000 idle 0).0.routes
      requester).1.1
    ≡ (some autopilot_frame.channel, (map (asks_for whole 7) (policy_of requester.policy), none))
arrival_asked_example =
    arrival_asked counting whole accepts_all autopilot_frame 1000 idle 0 vehicle_discovered
      (some beat) requester (λ n. refl) (omega arith) refl (inl refl)
