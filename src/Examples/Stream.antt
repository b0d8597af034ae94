-- ===== src/Examples/Stream.antt =====
-- internal/stream on one browser that falls behind.
use yalb_link.Prelude.{Has, ◌≡◌, none, some, List, [], ◌∷◌, ◌++◌, length, get_elem?}
use yalb_link.Proto.{FleetEvent, vehicle_discovered}
use yalb_link.Vehicle.Event.{Event}
use yalb_link.Stream.Hub.{Subscriber, Hub, new_hub, snapshot, subscribe, publish}
use yalb_link.Stream.Delivery.{
  Op, publishes, reports, receives, joins, closes, live_all, run, no_gap,
}
use yalb_link.GoMap
use yalb_link.GoMap.{GoMap}
use yalb_link.Prelude.{refl, string_eq, String}
use yalb_link.Proto.Telemetry.{TelemetryEvent}
use yalb_link.Stream.Hub.{key_eq, deliver, Event as HubEvent}
use yalb_link.Stream.Bootstrap.{Retained, of_telemetry, bootstrap_complete}
use yalb_link.Stream.Follows.{Follows}

abbrev discovered : FleetEvent
discovered = record {
  type = vehicle_discovered;
  vehicle_id = some (record { system_id = 1; component_id = 1 });
  heartbeat = none;
  occurred_at = none;
}

abbrev small_hub : Hub
small_hub = publish (Event.fleet discovered) (new_hub 1)

abbrev session : List Op
session =
    reports "profile" "{}"
    ∷ joins
    ∷ receives 0
    ∷ publishes (Event.fleet discovered)
    ∷ publishes (Event.fleet discovered)
    ∷ closes
    ∷ []

no_gap_example :
    (s : Subscriber) × (get_elem? (run session (subscribe small_hub)).subs (length small_hub.subs)
      ≡ some s)
    × Follows (snapshot small_hub ++ live_all session) s
no_gap_example = no_gap small_hub session

abbrev note : TelemetryEvent
note = record { vehicle_id = some (record { system_id = 2; component_id = 1 }); payload = none }

abbrev notes : GoMap String TelemetryEvent
notes = ("", note) ∷ []

-- A hub with a reading of one vehicle and nothing else.
abbrev quiet_hub : Hub
quiet_hub = publish (Event.telemetry note) (new_hub 1)

quiet_hub-Retained : Retained quiet_hub (HubEvent.telemetry note)
unfolding publish deliver new_hub GoMap.lookup GoMap.insert
quiet_hub-Retained =
    of_telemetry (record { sys_id = 2; comp_id = 1 }) "" {families = notes} refl refl

bootstrap_complete_example : Has (HubEvent.telemetry note) (snapshot quiet_hub)
bootstrap_complete_example =
    bootstrap_complete quiet_hub (HubEvent.telemetry note) quiet_hub-Retained
