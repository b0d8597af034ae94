-- ===== src/Bridge/Pipeline.antt =====
-- bridge.go and sink.go of internal/bridge. A sink is a function on the state `W` of all that consume
-- events; `none` is a publication without error. A frame comes with what the codec decodes from it and
-- with the diagnostic address in its channel's label. Logging and the wait of Run are left out.
use yalb_link.Prelude.{
  ℕ, Bool, Option, none, some, List, [], ◌∷◌, ◌==◌, ◌&&◌, if◌then◌else◌, String, ℤ,
}
use yalb_link.GoMap
use yalb_link.GoMap.{GoMap}
use yalb_link.Codec.{LinkId, gcs_system_id, gcs_component_id}
use yalb_link.Codec.Decode.{Decoded}
use yalb_link.Proto.{HeartbeatState}
use yalb_link.Routes.{Key, key_eq, Table, upsert, evict, forget_link}
use yalb_link.Vehicle.Event.{Event}
use yalb_link.Vehicle.State.{State, zero_state}
use yalb_link.Vehicle.Fold.{Inbound, fold, expire}

pub record Frame : Type 0 where
  pub sys_id : ℕ
  pub comp_id : ℕ
  pub channel : LinkId
  pub src_ip : String
  pub src_port : ℤ
  pub heartbeat : Option HeartbeatState
  pub decoded : Decoded
  pub msg_id : ℕ

pub record Bridge : Type 0 where
  pub routes : Table
  pub states : GoMap Key State

unfoldable pub new_bridge : Table → Bridge
new_bridge routes = record { routes = routes; states = [] }

pub data SourceEvent : Type 0 where
  channel_open : LinkId → SourceEvent
  channel_close : LinkId → SourceEvent
  parse_error : LinkId → SourceEvent
  arrived : Frame → SourceEvent

-- A frame that carries this station's own identity.
unfoldable pub is_own : Frame → Bool
is_own e = e.sys_id == gcs_system_id && e.comp_id == gcs_component_id

abbrev pub frame_key : Frame → Key
frame_key e = record { sys_id = e.sys_id; comp_id = e.comp_id }

abbrev pub inbound : Frame → Inbound
inbound e = record {
  heartbeat = e.heartbeat;
  src_addr = e.channel;
  decoded = e.decoded;
  msg_id = e.msg_id;
}

-- b.states[key], the zero state where the key is missing.
abbrev pub state_or_zero : Option State → State
state_or_zero none = zero_state
state_or_zero (some s) = s

unfoldable pub state_of : Key → Bridge → State
state_of k b = state_or_zero (GoMap.lookup k b.states)

module _ {W E : Type 0} where
  -- What one publication answered, and what the rest of the loop does if it was no error.
  abbrev pub unless_failed : W × Option E → W × Option E → W × Option E
  unless_failed (w, none) rest = rest
  unless_failed (w, some e) rest = (w, some e)

  -- The loop of MultiSink.Publish.
  unfoldable pub fan_out : Event → List (Event → W → W × Option E) → W → W × Option E
  fan_out ev [] w = (w, none)
  fan_out ev (s ∷ sinks) w = let rest = fan_out ev sinks (s ev w).0 in unless_failed (s ev w) rest

  -- One round of the loop of sweepOnce: the vehicle's new state is stored; then, unless its events could
  -- not be published, the rest.
  abbrev pub swept :
      Key
      → State
      → GoMap Key State
      → W × Option E
      → GoMap Key State × (W × Option E)
      → GoMap Key State × (W × Option E)
  swept k s m (w, none) (rest, result) = ((k, s) ∷ rest, result)
  swept k s m (w, some e) rest = ((k, s) ∷ m, (w, some e))

  unfoldable pub evict_after :
      ℕ → Table → GoMap Key State × (W × Option E) → Bridge × (W × Option E)
  evict_after now t (states, (w, none)) =
      (record { routes = (evict now t).0; states = states }, (w, none))
  evict_after now t (states, (w, some e)) = (record { routes = t; states = states }, (w, some e))

module _ {W E : Type 0} (sink : Event → W → W × Option E) where
  unfoldable pub emit : List Event → W → W × Option E
  emit [] w = (w, none)
  emit (ev ∷ evs) w = let rest = emit evs (sink ev w).0 in unless_failed (sink ev w) rest

  unfoldable pub receive : Frame → ℕ → Bridge → W → Bridge × (W × Option E)
  unfolding emit state_of
  receive e now b w =
      let k = frame_key e in
      let routes =
        upsert
          (record {
            link = e.channel;
            src_ip = e.src_ip;
            src_port = e.src_port;
            last_seen_ms = 0;
            key = k;
          })
          now b.routes in
      let (next, events) = fold (state_of k b) (inbound e) now in
      (record { routes = routes; states = GoMap.insert k next b.states }, emit events w)

  -- The method frame.
  unfoldable pub frame : Frame → ℕ → Bridge → W → Bridge × (W × Option E)
  unfolding receive is_own
  frame e now b w = if is_own e then (b, (w, none)) else receive e now b w

  -- The loop of sweepOnce; a failed publication ends it.
  unfoldable pub sweep_states : ℕ → GoMap Key State → W → GoMap Key State × (W × Option E)
  unfolding emit
  sweep_states now [] w = ([], (w, none))
  sweep_states now ((k, s) ∷ m) w =
      let rest = sweep_states now m (emit (expire s now).1 w).0 in
      swept k (expire s now).0 m (emit (expire s now).1 w) rest

  unfoldable pub sweep_once : ℕ → Bridge → W → Bridge × (W × Option E)
  unfolding sweep_states evict_after
  sweep_once now b w = evict_after now b.routes (sweep_states now b.states w)

  unfoldable pub handle : SourceEvent → ℕ → Bridge → W → Bridge × (W × Option E)
  unfolding frame
  handle (channel_close link) now b w =
      (record b { routes = (forget_link link b.routes).0 }, (w, none))
  handle (arrived e) now b w = frame e now b w
  handle _ now b w = (b, (w, none))
