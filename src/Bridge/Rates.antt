-- ===== src/Bridge/Rates.antt =====
-- rates.go of internal/bridge: the requester that asks a vehicle for its telemetry, a sink of the pipeline.
-- Float operations are the parameter of the encoders; a rate is a float64. What the transport answers is a
-- function of how many messages the call has written before.
use yalb_link.Prelude.{
  ℕ, pos, sub_ℕ, ltb_ℤ, ◌/◌, ◌%◌, Bool, true, false, ◌&&◌, Option, none, some, List, [], ◌∷◌, ◌++◌,
  ◌==◌, if◌then◌else◌, ltb, length, ℤ,
}
use yalb_link.GoMap
use yalb_link.GoMap.{GoMap}
use yalb_link.Codec.{LinkId, Target, WriteError, autopilot_component_id, heartbeat_ttl_ms}
use yalb_link.Codec.Encode.{Message, Floats, encode_set_message_interval}
use yalb_link.Proto.{
  Float64, VehicleId, FleetEventType, vehicle_discovered, vehicle_recovered, get_component_id,
}
use yalb_link.Routes.{Key, key_eq, Table, resolve}
use yalb_link.Vehicle.Event.{Event, WarningType}

pub record RateRequest : Type 0 where
  pub msg_id : ℕ
  pub hz : Float64

-- The microseconds of a second, and the rates 10, 5 and 1, as float64.
abbrev second_us : Float64
second_us = 4696837146684686336

abbrev ten : Float64
ten = 4621819117588971520

abbrev five : Float64
five = 4617315517961601024

abbrev one : Float64
one = 4607182418800017408

-- IntervalDefaultUs
abbrev pub interval_default_us : ℤ
interval_default_us = pos 0

unfoldable pub interval_us : Floats → RateRequest → ℤ
interval_us floats r =
    if floats.f64_nonpos r.hz
    then interval_default_us
    else floats.f64_to_int32 (floats.f64_div second_us r.hz)

abbrev rate : ℕ → Float64 → RateRequest
rate msg_id hz = record { msg_id = msg_id; hz = hz }

abbrev pub default_rates : List RateRequest
default_rates =
    rate 30 ten
    ∷ rate 33 five
    ∷ rate 74 five
    ∷ rate 24 one
    ∷ rate 1 one
    ∷ rate 147 one
    ∷ rate 193 one
    ∷ rate 42 one
    ∷ rate 62 one
    ∷ []

-- MinConflictInterval in nanoseconds, 0 where it is not positive; the nil Rates are `none`.
pub record RateRequester : Type 0 where
  pub policy : Option (List RateRequest)
  pub min_conflict_interval : ℕ
  pub last_conflict_ms : GoMap Key ℕ

abbrev pub rates_or_default : Option (List RateRequest) → List RateRequest
rates_or_default none = default_rates
rates_or_default (some rs) = rs

unfoldable pub rates : RateRequester → List RateRequest
rates r = rates_or_default r.policy

-- minConflictInterval().Milliseconds()
unfoldable pub min_conflict_ms : RateRequester → ℕ
min_conflict_ms r =
    if ltb 0 r.min_conflict_interval then r.min_conflict_interval / 1000000 else heartbeat_ttl_ms

unfoldable pub is_autopilot : Option VehicleId → Bool
is_autopilot id = get_component_id id == autopilot_component_id

-- The ids are cut to a byte, as uint8(...) does.
abbrev pub vehicle_key : VehicleId → Key
vehicle_key id = record { sys_id = id.system_id % 256; comp_id = id.component_id % 256 }

abbrev pub too_soon : Option ℕ → ℕ → ℕ → Bool
too_soon none now_ms interval = false
too_soon (some last) now_ms interval = ltb_ℤ (sub_ℕ now_ms last) (pos interval)

unfoldable pub allow_conflict : VehicleId → ℕ → RateRequester → RateRequester × Bool
allow_conflict id now_ms r =
    let k = vehicle_key id in
    if too_soon (GoMap.lookup k r.last_conflict_ms) now_ms (min_conflict_ms r)
    then (r, false)
    else (record r { last_conflict_ms = GoMap.insert k now_ms r.last_conflict_ms }, true)

-- The fleet events that re-issue the policy.
abbrev pub is_arrival : FleetEventType → Bool
is_arrival vehicle_discovered = true
is_arrival vehicle_recovered = true
is_arrival _ = false

abbrev pub conflict_target : VehicleId → RateRequester × Bool → RateRequester × Option VehicleId
conflict_target id (r, allowed) = (r, if allowed then some id else none)

abbrev pub is_conflict : WarningType → Bool
is_conflict WarningType.source_conflict = true
is_conflict WarningType.unspecified = false

-- The vehicle to ask, if the event triggers the policy.
unfoldable pub trigger : Event → RateRequester → RateRequester × Option VehicleId
unfolding is_autopilot allow_conflict
trigger (Event.fleet ev) r =
    (r, if is_arrival ev.type && is_autopilot ev.vehicle_id then ev.vehicle_id else none)
trigger (Event.warning w) r =
    if is_conflict w.type && is_autopilot (some w.vehicle_id)
    then conflict_target w.vehicle_id (allow_conflict w.vehicle_id w.occurred_ms r)
    else (r, none)
trigger _ r = (r, none)

pub data SinkError : Type 0 where
  no_route write_failed : SinkError

-- What the loop of Publish does after one write, given what the rest of it does.
abbrev pub after_write :
    Option WriteError
    → Message
    → List Message
    → List Message × Option SinkError
    → List Message × Option SinkError
after_write none msg written rest = rest
after_write (some WriteError.unknown_link) msg written rest = (written, none)
after_write (some WriteError.other) msg written rest = (written, some SinkError.write_failed)

module _ (floats : Floats) (answer : ℕ → Option WriteError) where
  abbrev pub request : Target → RateRequest → Message
  request target req = encode_set_message_interval floats target req.msg_id (interval_us floats req)

  -- The messages that went out, those of `written` before.
  unfoldable pub send_all :
      Target → List RateRequest → List Message → List Message × Option SinkError
  send_all target [] written = (written, none)
  send_all target (req ∷ reqs) written =
      let rest = send_all target reqs (written ++ (request target req ∷ [])) in
      after_write (answer (length written)) (request target req) written rest

  unfoldable pub ask :
      Key
      → List RateRequest
      → Table × Option LinkId
      → Table × (Option LinkId × (List Message × Option SinkError))
  unfolding send_all
  ask k reqs (t, none) = (t, (none, ([], some SinkError.no_route)))
  ask k reqs (t, some link) =
      (t, (some link, send_all (record { system_id = k.sys_id; component_id = k.comp_id }) reqs []))

  unfoldable pub ask_target :
      ℕ
      → Table
      → RateRequester × Option VehicleId
      → RateRequester × (Table × (Option LinkId × (List Message × Option SinkError)))
  unfolding ask
  ask_target now_ms t (r, none) = (r, (t, (none, ([], none))))
  ask_target now_ms t (r, some id) =
      (r, ask (vehicle_key id) (rates r) (resolve (vehicle_key id) now_ms t))

  -- Publish: the link it wrote to, the messages that went out, and its error.
  unfoldable pub publish :
      Event
      → ℕ
      → Table
      → RateRequester
      → RateRequester × (Table × (Option LinkId × (List Message × Option SinkError)))
  unfolding ask_target
  publish ev now_ms t r = ask_target now_ms t (trigger ev r)
