-- ===== src/Mission/Correlation.antt =====
-- Which responses reach which download, over every order of claims, publications, receptions and
-- releases of internal/mission/coordinator.go.
use mathlib.Core.Path.{subst}
use mathlib.Core.Option.{map as option_map}
use yalb_link.Prelude.{
  false, ◌&&◌, ◌==◌, ◌%◌, ltb, ◌++◌, Bool, ℕ, ◌≡◌, ◌≤◌, true, Option, none, some, List, [], ◌∷◌,
  arith, All, All-append, length, length-append, ap, ◌∙◌, Bool-cases, inl, inr, if◌then◌else◌, refl,
}
use yalb_link.GoMap
use yalb_link.GoMap.Laws.{lookup-insert, All-lookup, All-insert, All-delete}
use yalb_link.Codec.{Target, gcs_system_id, gcs_component_id}
use yalb_link.Proto.{VehicleId}
use yalb_link.Proto.Transactions.{ProtocolEvent, Response}
use yalb_link.Vehicle.Event.{Event}
use yalb_link.Mission.Key.{Key, key_eq, key_beq, key_beq_iff}
use yalb_link.Mission.Coordinator.{
  Coordinator, new_coordinator, claim_slot, claim, release, event_buffer, mission_response, is_ours,
  sender_key, response_of, offer, hand_over, correlate, publish,
}
use yalb_link.Mission.Slots.{slot}

-- What may happen next: a download opens, an event is published, a download takes the first response of
-- its channel, a download ends.
pub data Step : Coordinator → Coordinator → Type 0 where
  claims : {c : Coordinator} (k : Key) {held : Coordinator} → claim k c ≡ some held → Step c held
  publishes : {c : Coordinator} (ev : Event) → Step c (publish ev c)
  receives :
      {c : Coordinator} (k : Key) {ev : ProtocolEvent} {rest : List ProtocolEvent}
      → slot k c ≡ some (ev ∷ rest)
      → Step c (record c { inflight = GoMap.insert k rest c.inflight })
  releases : {c : Coordinator} (k : Key) → Step c (release k c)

pub data Reachable : Coordinator → Type 0 where
  start : Reachable new_coordinator
  after : {c d : Coordinator} → Reachable c → Step c d → Reachable d

-- The response comes from the slot's vehicle and component, is of its mission type, and is addressed to
-- this station.
unfoldable pub Belongs : Key → ProtocolEvent → Type 0
Belongs k ev =
    (id : VehicleId) × (ev.vehicle_id ≡ some id)
    × (sender_key id k.mission_type ≡ k)
    × (mission_response ev
        ≡ some
            (k.mission_type, record { system_id = gcs_system_id; component_id = gcs_component_id }))

unfoldable pub Holds : Key → List ProtocolEvent → Type 0
Holds k queue = (length queue ≤ event_buffer) × All (Belongs k) queue

abbrev AllHold : Coordinator → Type 0
AllHold c = All (λ x. Holds x.0 x.1) c.inflight

offer-Holds :
    (k : Key) (ev : ProtocolEvent) (q : List ProtocolEvent)
    → Belongs k ev
    → Holds k q
    → Holds k (offer ev q)
unfolding Holds offer
offer-Holds k ev q b h =
    ground (arith, length-append q (ev ∷ []), All-append (Belongs k) q (ev ∷ []))

claim_slot-AllHold :
    (k : Key) (c : Coordinator) (busy : Option (List ProtocolEvent)) {held : Coordinator}
    → AllHold c
    → claim_slot k c busy ≡ some held
    → AllHold held
unfolding claim_slot Holds
claim_slot-AllHold k c (some q) h e = absurd (cc)
claim_slot-AllHold k c none {held} h e =
    subst AllHold (cc) (All-insert Holds k [] c.inflight (ground arith) h)

ours :
    (t : Target)
    → is_ours t ≡ true
    → t ≡ record { system_id = gcs_system_id; component_id = gcs_component_id }
unfolding is_ours
ours t h = ground arith

hand_over-AllHold :
    (k : Key) (ev : ProtocolEvent) (c : Coordinator) (found : Option (List ProtocolEvent))
    → Belongs k ev
    → GoMap.lookup k c.inflight ≡ found
    → AllHold c
    → AllHold (hand_over k ev c found)
unfolding hand_over
hand_over-AllHold k ev c none b e h = h
hand_over-AllHold k ev c (some q) b e h =
    All-insert Holds k (offer ev q) c.inflight
      (offer-Holds k ev q b (All-lookup Holds k c.inflight h e)) h

correlate-AllHold :
    (ev : ProtocolEvent) (c : Coordinator) (id : Option VehicleId) (r : Option (ℕ × Target))
    → ev.vehicle_id ≡ id
    → mission_response ev ≡ r
    → AllHold c
    → AllHold (correlate ev c id r)
unfolding correlate Belongs
correlate-AllHold ev c none r ei er h = h
correlate-AllHold ev c (some id) none ei er h = h
correlate-AllHold ev c (some id) (some (mt, target)) ei er h = elim (Bool-cases (is_ours target)) [
  | inl hit ↦ ground (
    arith,
    hand_over-AllHold (sender_key id mt) ev c _
        (id, ei, refl, er ∙ ap (λ t. some (mt, t)) (ours target hit)) refl h,
  )
  | inr miss ↦ ground (arith)
]

publish-AllHold : (ev : Event) (c : Coordinator) → AllHold c → AllHold (publish ev c)
unfolding publish
publish-AllHold (Event.protocol ev) c h = correlate-AllHold ev c _ _ refl refl h
publish-AllHold _ c h = h

receive-AllHold :
    (k : Key) (c : Coordinator) {ev : ProtocolEvent} {rest : List ProtocolEvent}
    → slot k c ≡ some (ev ∷ rest)
    → AllHold c
    → AllHold (record c { inflight = GoMap.insert k rest c.inflight })
unfolding Holds
receive-AllHold k c {ev} {rest} e h =
    All-insert Holds k rest c.inflight (ground (arith, All-lookup Holds k c.inflight h e)) h

Reachable-AllHold : {c : Coordinator} → Reachable c → AllHold c
unfolding claim release new_coordinator
Reachable-AllHold start = tt
Reachable-AllHold (after {c} r (claims k e)) = claim_slot-AllHold k c _ (Reachable-AllHold r) e
Reachable-AllHold (after {c} r (publishes ev)) = publish-AllHold ev c (Reachable-AllHold r)
Reachable-AllHold (after {c} r (receives k e)) = receive-AllHold k c e (Reachable-AllHold r)
Reachable-AllHold (after {c} r (releases k)) = All-delete Holds k c.inflight (Reachable-AllHold r)

-- Whatever the order of claims, published events, receptions and releases from the empty coordinator, a
-- held slot's channel never holds more than its buffer's eight responses, and each of them comes from the
-- slot's vehicle and component, is of the slot's mission type and is addressed to this station.
pub queued_belong :
    {c : Coordinator} (k : Key) {queue : List ProtocolEvent}
    → Reachable c
    → slot k c ≡ some queue
    → Holds k queue
queued_belong {c} k r e = All-lookup Holds k c.inflight (Reachable-AllHold r) e

hand_over-slot :
    (k j : Key) (ev : ProtocolEvent) (c : Coordinator) (found : Option (List ProtocolEvent))
    → slot k c ≡ found
    → slot j (hand_over k ev c found)
      ≡ (if key_beq k j then option_map (offer ev) (slot j c) else slot j c)
unfolding hand_over
hand_over-slot k j ev c none e = ground (arith, key_beq_iff k j)
hand_over-slot k j ev c (some q) e =
    ground (arith, key_beq_iff k j, lookup-insert k j (offer ev q) c.inflight)

-- The event comes from the slot's vehicle and component, whose ids are cut to a byte.
abbrev comes_from : Key → Option VehicleId → Bool
comes_from j none = false
comes_from j (some id) = (id.system_id % 256 == j.sys_id) && (id.component_id % 256 == j.comp_id)

-- The identity of this station, 255 and 190.
abbrev to_station : ℕ → ℕ → Bool
to_station system component = (system % 256 == 255) && (component % 256 == 190)

-- It is a count, an item or an acknowledgement of the slot's mission type, addressed to this station.
abbrev answers : Key → Option Response → Bool
answers j (some (Response.mission_count m)) =
    (m.mission_type == j.mission_type) && to_station m.target_system m.target_component
answers j (some (Response.mission_item m)) =
    (m.mission_type == j.mission_type) && to_station m.target_system m.target_component
answers j (some (Response.mission_ack m)) =
    (m.mission_type == j.mission_type) && to_station m.target_system m.target_component
answers j _ = false

abbrev pub concerns : Key → ProtocolEvent → Bool
concerns j ev = comes_from j ev.vehicle_id && answers j ev.payload

-- The queue with the event at its end, if it held fewer than eight.
abbrev pub queued : ProtocolEvent → List ProtocolEvent → List ProtocolEvent
queued ev q = if ltb (length q) 8 then q ++ (ev ∷ []) else q

correlate-slot :
    (ev : ProtocolEvent) (c : Coordinator) (id : Option VehicleId) (payload : Option Response)
    (j : Key)
    → slot j (correlate ev c id (response_of payload)) ≡ (
        if comes_from j id && answers j payload
        then option_map (queued ev) (slot j c)
        else slot j c)
unfolding correlate is_ours offer
correlate-slot ev c none payload j = refl
correlate-slot ev c (some id) none j = ground arith
correlate-slot ev c (some id) (some (Response.mission_count m)) j = ground (
  arith,
  key_beq_iff (sender_key id m.mission_type) j,
  hand_over-slot (sender_key id m.mission_type) j ev c _ refl,
)
correlate-slot ev c (some id) (some (Response.mission_item m)) j = ground (
  arith,
  key_beq_iff (sender_key id m.mission_type) j,
  hand_over-slot (sender_key id m.mission_type) j ev c _ refl,
)
correlate-slot ev c (some id) (some (Response.mission_ack m)) j = ground (
  arith,
  key_beq_iff (sender_key id m.mission_type) j,
  hand_over-slot (sender_key id m.mission_type) j ev c _ refl,
)
correlate-slot ev c (some id) (some _) j = ground arith

-- A published protocol event reaches exactly the slot that it concerns, if that slot is held, at the end of
-- its channel unless eight responses are waiting there; every other slot is as it was. It concerns the slot
-- of its vehicle, component and mission type if it is a count, an item or an acknowledgement that is
-- addressed to this station.
pub publish_delivers :
    (ev : ProtocolEvent) (c : Coordinator) (j : Key)
    → slot j (publish (Event.protocol ev) c)
      ≡ (if concerns j ev then option_map (queued ev) (slot j c) else slot j c)
unfolding publish mission_response
publish_delivers ev c j = correlate-slot ev c ev.vehicle_id ev.payload j
