-- ===== src/Bridge/Requests.antt =====
-- When and whom the requester of internal/bridge/rates.go asks for telemetry.
use mathlib.Core.Path.{subst}
use yalb_link.Prelude.{
  refl, pos, ◌⊎◌, inl, inr, ltb, ◌/◌, ℕ, ◌+◌, ◌≡◌, ◌<◌, ◌∙◌, ap, sym, true, Option, none, some,
  List, [], ◌∷◌, ◌++◌, arith, if◌then◌else◌, leb, map, length,
}
use mathlib.Core.List.{append-nil, append_assoc}
use yalb_link.GoMap.Laws.{lookup-insert}
use yalb_link.Codec.{LinkId, Target, WriteError}
use yalb_link.Codec.Encode.{Message, Floats, encode_set_message_interval, encode_command_long}
use yalb_link.Proto.{
  VehicleId, HeartbeatState, FleetEventType, vehicle_discovered, vehicle_lost, vehicle_recovered,
  heartbeat_updated,
}
use yalb_link.Routes.{Key, key_beq, key_beq_iff, key_eq, Table, resolve}
use yalb_link.Vehicle.Event.{Event, fleet_event}
use yalb_link.Bridge.Rates.{
  RateRequest, RateRequester, rates, rates_or_default, interval_us, min_conflict_ms, vehicle_key,
  allow_conflict, trigger, request, send_all, ask, ask_target, publish, after_write, is_autopilot,
}
use yalb_link.Bridge.Pipeline.{Frame, Bridge, frame}
use yalb_link.Bridge.Frames.{from_station, sender_key, frame_effect}

-- The configured interval in whole milliseconds, as the requester cuts it, or a minute where none is set.
abbrev pub spacing_ms : ℕ → ℕ
spacing_ms interval = if ltb 0 interval then interval / 1000000 else 60000

-- After a source change was allowed to re-issue the policy of a vehicle, the next one for that vehicle is
-- allowed exactly once the configured interval, cut to whole milliseconds, has passed since, or a minute
-- where no positive interval is configured. Other vehicles are not held back by it.
pub conflict_spaced :
    (id other : VehicleId) (now later : ℕ) (r : RateRequester) {s : RateRequester}
    → allow_conflict id now r ≡ (s, true)
    → (allow_conflict other later s).1 ≡ (
        if key_beq (vehicle_key id) (vehicle_key other)
        then leb (now + spacing_ms r.min_conflict_interval) later
        else (allow_conflict other later r).1)
unfolding allow_conflict min_conflict_ms
conflict_spaced id other now later r e = ground (
  arith,
  key_beq_iff (vehicle_key id) (vehicle_key other),
  lookup-insert (vehicle_key id) (vehicle_key other) now r.last_conflict_ms,
)

abbrev pub target_of : VehicleId → Target
target_of id = record {
  system_id = (vehicle_key id).sys_id;
  component_id = (vehicle_key id).comp_id;
}

abbrev pub frame_id : Frame → VehicleId
frame_id e = record { system_id = e.sys_id; component_id = e.comp_id }

other_component :
    {A : Type 0} (x y : A) (e : Frame) → e.comp_id ≡ 1 → (if from_station e then x else y) ≡ y
other_component x y e h = ground arith

module _ (floats : Floats) (answer : ℕ → Option WriteError)
    (accepts : (n : ℕ) → answer n ≡ none) where
  send_all-accepted :
      (target : Target) (reqs : List RateRequest) (written : List Message)
      → send_all floats answer target reqs written
        ≡ (written ++ map (request floats answer target) reqs, none)
  unfolding send_all
  send_all-accepted target [] written = ap (λ xs. (xs, none)) (sym (append-nil written))
  send_all-accepted target (req ∷ reqs) written =
      ap
        (λ a.
          after_write a (request floats answer target req) written (
            send_all floats answer target reqs
              (written ++ (request floats answer target req ∷ []))))
        (accepts (length written))
      ∙ send_all-accepted target reqs (written ++ (request floats answer target req ∷ []))
      ∙ ap (λ xs. (xs, none)) (append_assoc written (request floats answer target req ∷ []) _)

  ask-sent :
      (k : Key) (reqs : List RateRequest) (x : Table × Option LinkId) {link : LinkId}
      → x.1 ≡ some link
      → (ask floats answer k reqs x).1 ≡ (
        some link,
        (
          map
              (request floats answer (record { system_id = k.sys_id; component_id = k.comp_id }))
              reqs,
          none,
        ),
      )
  unfolding ask
  ask-sent k reqs (t, none) h = absurd (cc)
  ask-sent k reqs (t, some to) {link} h =
      let target : Target = record { system_id = k.sys_id; component_id = k.comp_id } in
      ap (λ l. (l, send_all floats answer target reqs [])) h
      ∙ ap (λ sent. (some link, sent)) (send_all-accepted target reqs [])

  ask_target-sent :
      (now : ℕ) (t : Table) (x : RateRequester × Option VehicleId) {id : VehicleId} {link : LinkId}
      → x.1 ≡ some id
      → (resolve (vehicle_key id) now t).1 ≡ some link
      → (ask_target floats answer now t x).1.1
        ≡ (some link, (map (request floats answer (target_of id)) (rates x.0), none))
  unfolding ask_target
  ask_target-sent now t (r, none) h routed = absurd (cc)
  ask_target-sent now t (r, some to) {id} {link} h routed =
      let same : to ≡ id = cc in
      subst
        (λ v.
          (resolve (vehicle_key v) now t).1 ≡ some link
          → (ask_target floats answer now t (r, some to)).1.1
            ≡ (some link, (map (request floats answer (target_of v)) (rates r), none)))
        same (λ q. ask-sent (vehicle_key to) (rates r) _ q) routed

  -- On a link that takes every write, an event that triggers the policy for a vehicle with a route sends
  -- exactly the policy's requests, in order, to that vehicle over that route.
  pub policy_sent :
      (ev : Event) (now : ℕ) (t : Table) (r : RateRequester) (id : VehicleId) (link : LinkId)
      → (trigger ev r).1 ≡ some id
      → (resolve (vehicle_key id) now t).1 ≡ some link
      → (publish floats answer ev now t r).1.1
        ≡ (some link, (map (request floats answer (target_of id)) (rates (trigger ev r).0), none))
  unfolding publish
  policy_sent ev now t r id link triggered routed =
      ask_target-sent now t (trigger ev r) triggered routed

arrival-trigger :
    (type : FleetEventType) (id : VehicleId) (hb : Option HeartbeatState) (now : ℕ)
    (r : RateRequester)
    → (type ≡ vehicle_discovered) ⊎ (type ≡ vehicle_recovered)
    → id.component_id ≡ 1
    → trigger (fleet_event type id hb now) r ≡ (r, some id)
unfolding trigger fleet_event is_autopilot
arrival-trigger vehicle_discovered id hb now r h q = ground arith
arrival-trigger vehicle_recovered id hb now r h q = ground arith
arrival-trigger vehicle_lost id hb now r (inl h) q = absurd (cc)
arrival-trigger vehicle_lost id hb now r (inr h) q = absurd (cc)
arrival-trigger heartbeat_updated id hb now r (inl h) q = absurd (cc)
arrival-trigger heartbeat_updated id hb now r (inr h) q = absurd (cc)

-- The configured policy, or the message ids and the rates in hertz, as float64, of the default one: 10 for
-- attitude, 5 for global position and VFR_HUD, 1 for the others.
abbrev pub policy_of : Option (List RateRequest) → List RateRequest
policy_of (some reqs) = reqs
policy_of none =
    record { msg_id = 30; hz = 4621819117588971520 }
    ∷ record { msg_id = 33; hz = 4617315517961601024 }
    ∷ record { msg_id = 74; hz = 4617315517961601024 }
    ∷ record { msg_id = 24; hz = 4607182418800017408 }
    ∷ record { msg_id = 1; hz = 4607182418800017408 }
    ∷ record { msg_id = 147; hz = 4607182418800017408 }
    ∷ record { msg_id = 193; hz = 4607182418800017408 }
    ∷ record { msg_id = 42; hz = 4607182418800017408 }
    ∷ record { msg_id = 62; hz = 4607182418800017408 }
    ∷ []

-- MAV_CMD_SET_MESSAGE_INTERVAL to the autopilot of a system: the message id, and the interval in
-- microseconds, a million by the rate, or 0 where the rate is not positive.
abbrev pub asks_for : Floats → ℕ → RateRequest → Message
asks_for floats sys_id req = Message.command_long (record {
  target = record { system_id = sys_id; component_id = 1 };
  command = 511;
  confirmation = 0;
  param1 = floats.f32_of_int (pos req.msg_id);
  param2 = floats.f32_of_int (
      if floats.f64_nonpos req.hz
      then pos 0
      else floats.f64_to_int32 (floats.f64_div 4696837146684686336 req.hz));
  param3 = 0;
  param4 = 0;
  param5 = 0;
  param6 = 0;
  param7 = 0;
})

rates-policy :
    (r : RateRequester) (policy : Option (List RateRequest))
    → r.policy ≡ policy
    → rates r ≡ policy_of policy
unfolding rates
rates-policy r none h = ap rates_or_default h
rates-policy r (some reqs) h = ap rates_or_default h

requests_asked :
    (floats : Floats) (answer : ℕ → Option WriteError) (sys_id : ℕ) (reqs : List RateRequest)
    → map (request floats answer (record { system_id = sys_id; component_id = 1 })) reqs
      ≡ map (asks_for floats sys_id) reqs
unfolding encode_set_message_interval encode_command_long interval_us
requests_asked floats answer sys_id [] = refl
requests_asked floats answer sys_id (req ∷ reqs) =
    ap (λ rest. asks_for floats sys_id req ∷ rest) (requests_asked floats answer sys_id reqs)

-- Right after a frame of an autopilot, whose system id is one byte, went through the bridge, whatever the
-- sinks answered, its discovery or recovery asks it for the whole policy, message by message, over the
-- channel the frame came on, if the link takes every write: the requester always finds the route. The policy
-- is the configured one, or else attitude at 10 Hz, position and VFR_HUD at 5 Hz, and six more at 1 Hz.
pub arrival_asked :
    {W E : Type 0} (sink : Event → W → W × Option E) (floats : Floats)
    (answer : ℕ → Option WriteError) (e : Frame) (now : ℕ) (b : Bridge) (w : W)
    (type : FleetEventType) (hb : Option HeartbeatState) (r : RateRequester)
    → ((n : ℕ) → answer n ≡ none)
    → e.sys_id < 256
    → e.comp_id ≡ 1
    → (type ≡ vehicle_discovered) ⊎ (type ≡ vehicle_recovered)
    → (publish floats answer
        (fleet_event type (frame_id e) hb now)
        now
        (frame sink e now b w).0.routes
        r).1.1
      ≡ (some e.channel, (map (asks_for floats e.sys_id) (policy_of r.policy), none))
arrival_asked sink floats answer e now b w type hb r accepts small autopilot arrives =
    let triggered = arrival-trigger type (frame_id e) hb now r arrives autopilot in
    let own_key : vehicle_key (frame_id e) ≡ sender_key e = ground arith in
    let target : target_of (frame_id e) ≡ record { system_id = e.sys_id; component_id = 1 } =
      ground arith in
    policy_sent floats answer accepts (fleet_event type (frame_id e) hb now) now
      (frame sink e now b w).0.routes r (frame_id e) e.channel (ap (λ x. x.1) triggered)
      (ap (λ k. (resolve k now (frame sink e now b w).0.routes).1) own_key
        ∙ (frame_effect sink e now b w (sender_key e)).0
        ∙ other_component _ _ e autopilot)
    ∙ ap
        (λ reqs.
          (some e.channel, (map (request floats answer (target_of (frame_id e))) reqs, none)))
        (ap (λ x. rates x.0) triggered ∙ rates-policy r r.policy refl)
    ∙ ap (λ sent. (some e.channel, (sent, none)))
        (ap (λ t. map (request floats answer t) (policy_of r.policy)) target
          ∙ requests_asked floats answer e.sys_id (policy_of r.policy))
