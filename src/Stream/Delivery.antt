-- ===== src/Stream/Delivery.antt =====
-- What a subscriber of internal/stream/hub.go receives, over every order of publications, connections,
-- disconnections and receptions.
use mathlib.Core.Option.{map as option_map}
use mathlib.Core.Path.{subst}
use mathlib.Core.List.{append_assoc, append-nil}
use yalb_link.Prelude.{
  ℕ, ◌≡◌, some, List, [], ◌∷◌, ◌++◌, ◌==◌, arith, length, get_elem?, if◌then◌else◌, String, refl,
  ap, ◌∙◌,
}
use yalb_link.Vehicle.Event.{Event as VehicleEvent}
use yalb_link.Stream.Hub.{
  Event, Subscriber, Hub, snapshot, subscribe, unsubscribe, dropped, send, deliver, publish,
  publish_acquisition, close, taken_by, receive,
}
use yalb_link.Stream.Follows.{
  Follows, get_elem?-map, get_elem?-at, get_elem?-append, get_elem?-last, send-Follows,
  dropped-Follows, taken_by-Follows, unchanged-Follows,
}

pub data Op : Type 0 where
  publishes : VehicleEvent → Op
  -- An acquisition status: its id and its JSON.
  reports : String → String → Op
  joins : Op
  leaves : ℕ → Op
  receives : ℕ → Op
  closes : Op

-- The event that a publication streams; warnings and protocol events are not streamed.
unfoldable pub streamed : VehicleEvent → List Event
streamed (VehicleEvent.fleet ev) = Event.fleet ev ∷ []
streamed (VehicleEvent.telemetry ev) = Event.telemetry ev ∷ []
streamed (VehicleEvent.command tx) = Event.command tx ∷ []
streamed _ = []

-- What an operation streams to everyone.
unfoldable pub live : Op → List Event
unfolding streamed
live (publishes ev) = streamed ev
live (reports id json) = Event.acquisition json ∷ []
live _ = []

unfoldable pub live_all : List Op → List Event
live_all [] = []
live_all (op ∷ ops) = live op ++ live_all ops

unfoldable pub step : Op → Hub → Hub
step (publishes ev) h = publish ev h
step (reports id json) h = publish_acquisition id json h
step joins h = subscribe h
step (leaves i) h = unsubscribe i h
step (receives i) h = receive i h
step closes h = close h

unfoldable pub run : List Op → Hub → Hub
run [] h = h
run (op ∷ ops) h = run ops (step op h)

-- What an operation does to the subscriber numbered i.
unfoldable effect : ℕ → Op → Subscriber → Subscriber
effect i (publishes (VehicleEvent.fleet ev)) s = send (Event.fleet ev) s
effect i (publishes (VehicleEvent.telemetry ev)) s = send (Event.telemetry ev) s
effect i (publishes (VehicleEvent.command tx)) s = send (Event.command tx) s
effect i (publishes _) s = s
effect i (reports id json) s = send (Event.acquisition json) s
effect i joins s = s
effect i (leaves j) s = if j == i then dropped s else s
effect i (receives j) s = if j == i then taken_by s.events s else s
effect i closes s = if s.registered then dropped s else s

effect-Follows :
    (i : ℕ) (op : Op) (s : Subscriber) (history : List Event)
    → Follows history s
    → Follows (history ++ live op) (effect i op s)
unfolding effect live streamed
effect-Follows i (publishes (VehicleEvent.fleet ev)) s history h = send-Follows _ s history h
effect-Follows i (publishes (VehicleEvent.telemetry ev)) s history h = send-Follows _ s history h
effect-Follows i (publishes (VehicleEvent.command tx)) s history h = send-Follows _ s history h
effect-Follows i (publishes _) s history h = unchanged-Follows s history h
effect-Follows i (reports id json) s history h = send-Follows _ s history h
effect-Follows i joins s history h = unchanged-Follows s history h
effect-Follows i (leaves j) s history h = ground (
  arith,
  unchanged-Follows s history h,
  unchanged-Follows (dropped s) history (dropped-Follows s history h),
)
effect-Follows i (receives j) s history h = ground (
  arith,
  unchanged-Follows s history h,
  unchanged-Follows (taken_by s.events s) history (taken_by-Follows s history h s.events refl),
)
effect-Follows i closes s history h = ground (
  arith,
  unchanged-Follows s history h,
  unchanged-Follows (dropped s) history (dropped-Follows s history h),
)

step-effect :
    (i : ℕ) (op : Op) (h : Hub) {s : Subscriber}
    → get_elem? h.subs i ≡ some s
    → get_elem? (step op h).subs i ≡ some (effect i op s)
unfolding step effect publish publish_acquisition deliver subscribe unsubscribe receive close
step-effect i (publishes (VehicleEvent.fleet ev)) h e =
    get_elem?-map _ h.subs i ∙ ap (option_map _) e
step-effect i (publishes (VehicleEvent.telemetry ev)) h e =
    get_elem?-map _ h.subs i ∙ ap (option_map _) e
step-effect i (publishes (VehicleEvent.command tx)) h e =
    get_elem?-map _ h.subs i ∙ ap (option_map _) e
step-effect i (publishes _) h e = e
step-effect i (reports id json) h e = get_elem?-map _ h.subs i ∙ ap (option_map _) e
step-effect i joins h e = get_elem?-append h.subs _ i e
step-effect i (leaves j) h e = get_elem?-at j _ h.subs i ∙ ap (option_map _) e
step-effect i (receives j) h e = get_elem?-at j _ h.subs i ∙ ap (option_map _) e
step-effect i closes h e = get_elem?-map _ h.subs i ∙ ap (option_map _) e

run-Follows :
    (i : ℕ) (ops : List Op) (h : Hub) (history : List Event) {s : Subscriber}
    → get_elem? h.subs i ≡ some s
    → Follows history s
    → (t : Subscriber) × (get_elem? (run ops h).subs i ≡ some t)
      × Follows (history ++ live_all ops) t
unfolding run live_all
run-Follows i [] h history {s} e f = (s, e, unchanged-Follows s history f)
run-Follows i (op ∷ ops) h history {s} e f =
    let (t, found, follows) =
      run-Follows i ops (step op h) (history ++ live op) (step-effect i op h e)
        (effect-Follows i op s history f) in
    (t, found, subst (λ hs. Follows hs t) (append_assoc history (live op) (live_all ops)) follows)

-- A browser that subscribes gets the snapshot of that moment and then every fleet, telemetry, command and
-- acquisition event published afterwards, in order, with no gap and no duplicate, for as long as it stays
-- registered; one that was dropped has got a beginning of that sequence. This holds whatever other
-- subscribers join, leave, fall behind or read, and its channel never exceeds its capacity.
pub no_gap :
    (h : Hub) (ops : List Op)
    → (s : Subscriber) × (get_elem? (run ops (subscribe h)).subs (length h.subs) ≡ some s)
      × Follows (snapshot h ++ live_all ops) s
unfolding subscribe
no_gap h ops =
    run-Follows (length h.subs) ops (subscribe h) (snapshot h) (get_elem?-last h.subs _) (record {
      prefix = ([], append-nil _);
      complete = λ reg. refl;
      bounded = ground arith;
      closes_with = refl;
    })
