-- ===== src/Vehicle/Freshness.antt =====
-- Ages and loss in internal/vehicle: FamilyAgeMs, Expired, Expire.
use yalb_link.Prelude.{
  ℕ, sub_ℕ, ◌+◌, ◌<◌, ◌≡◌, ◌∙◌, ◌↔◌, ◌⊎◌, refl, true, false, Option, none, some, String, [], ◌∷◌,
  arith, ◌==◌, if◌then◌else◌, nat_eq,
}
use yalb_link.GoMap.Laws.{lookup-insert}
use yalb_link.Codec.{heartbeat_ttl_ms}
use yalb_link.Proto.{vehicle_lost, HeartbeatState}
use yalb_link.Proto.Telemetry.{TelemetryEvent}
use yalb_link.Vehicle.Event.{fleet_event}
use yalb_link.Vehicle.State.{State, id_of, snapshot_heartbeat, age_ms, family_age_ms}
use yalb_link.Vehicle.Fold.{
  Inbound, lifecycle, source_conflict, telemetry, begin_fold, end_fold, fold, expire,
}
use yalb_link.Vehicle.Trace.{after_lifecycle, after_conflict, after_telemetry}

lifecycle-families :
    (prev next : State) (hb : Option HeartbeatState) (now_ms : ℕ)
    → (lifecycle prev next hb now_ms).0.last_msg_seen_ms ≡ next.last_msg_seen_ms
unfolding lifecycle
lifecycle-families prev next none now_ms = ground arith
lifecycle-families prev next (some hb) now_ms = ground arith

source_conflict-families :
    (prev next : State) (src_addr : String) (now_ms : ℕ)
    → (source_conflict prev next src_addr now_ms).0.last_msg_seen_ms ≡ next.last_msg_seen_ms
unfolding source_conflict
source_conflict-families prev next src_addr now_ms = ground arith

telemetry-families :
    (next : State) (evt : Option TelemetryEvent) (now_ms : ℕ)
    → (telemetry next evt now_ms).0.last_msg_seen_ms ≡ next.last_msg_seen_ms
unfolding telemetry
telemetry-families next none now_ms = refl
telemetry-families next (some evt) now_ms = ground arith

before_end-families :
    (s : State) (inb : Inbound) (now_ms : ℕ)
    → (after_telemetry s inb now_ms).0.last_msg_seen_ms ≡ s.last_msg_seen_ms
unfolding begin_fold
before_end-families s inb now_ms =
    telemetry-families (after_conflict s inb now_ms).0 inb.decoded.telemetry now_ms
    ∙ source_conflict-families s (after_lifecycle s inb now_ms).0 inb.src_addr now_ms
    ∙ lifecycle-families s (begin_fold s inb) inb.heartbeat now_ms

-- After a frame the age of its message family counts from that frame, the age of every other family is
-- what it was, and the vehicle's own age counts from the frame whatever its family.
pub fold_ages :
    (s : State) (inb : Inbound) (now_ms later_ms msg_id : ℕ)
    → (family_age_ms (fold s inb now_ms).0 msg_id later_ms ≡ (
        if inb.msg_id == msg_id
        then some (sub_ℕ later_ms now_ms)
        else family_age_ms s msg_id later_ms))
      × (age_ms (fold s inb now_ms).0 later_ms ≡ sub_ℕ later_ms now_ms)
unfolding fold end_fold family_age_ms age_ms
fold_ages s inb now_ms later_ms msg_id = ground (
  arith,
  before_end-families s inb now_ms,
  lookup-insert inb.msg_id msg_id now_ms s.last_msg_seen_ms,
)

-- A sweep reports a loss exactly when the vehicle is known, not reported lost and silent for longer than
-- the time to live; of two sweeps with no frame between them at most one reports it.
pub expire_once :
    (s : State) (now_ms later_ms : ℕ)
    → (((expire s now_ms).1
          ≡ fleet_event vehicle_lost (id_of s) (snapshot_heartbeat s.snapshot) now_ms ∷ [])
        ↔ ((s.known ≡ true) × (s.lost ≡ false) × (s.last_seen_ms + heartbeat_ttl_ms < now_ms)))
      × (((expire s now_ms).1 ≡ []) ⊎ ((expire (expire s now_ms).0 later_ms).1 ≡ []))
unfolding expire
expire_once s now_ms later_ms = ground arith
