-- ===== src/Mission/Slots.antt =====
-- The download slots of internal/mission/coordinator.go: one download for each vehicle, component and
-- mission type, and no slot lost.
use yalb_link.Prelude.{
  ap, ◌∙◌, ℕ, ◌≡◌, ◌≢◌, ◌⊎◌, inl, inr, Bool, true, false, Option, none, some, List, [], arith,
  if◌then◌else◌, Option-cases, refl,
}
use yalb_link.GoMap
use yalb_link.GoMap.Laws.{lookup-insert, lookup-delete}
use yalb_link.Codec.{Target, LinkId}
use yalb_link.Proto.{Timestamp}
use yalb_link.Proto.Transactions.{ProtocolEvent}
use yalb_link.Routes.{Table}
use yalb_link.Mission.Key.{Key, key_beq, key_beq_iff, key_eq}
use yalb_link.Codec.{WriteError}
use yalb_link.Mission.Coordinator.{Coordinator, claim, release}
use yalb_link.Mission.Transfer.{Arrival, Outcome, Wire, ok, err, waiting, run}
use yalb_link.Mission.Settles.{HasEnd, run_settles}
use yalb_link.Mission.Download.{
  slot_key, claimed, routed, release_after, transfer, open_download, download,
}

-- The queue of a slot, if it is held.
abbrev pub slot : Key → Coordinator → Option (List ProtocolEvent)
slot k c = GoMap.lookup k c.inflight

-- A claim succeeds exactly on a free slot. It then holds that slot with an empty queue, refuses every
-- further claim of it, and leaves every other slot as it was, the slots of other mission types of the
-- same vehicle among them.
pub claim_exclusive :
    (k j : Key) (c : Coordinator)
    → ((claim k c ≡ none) × (slot k c ≢ none))
      ⊎ ((held : Coordinator) × (claim k c ≡ some held)
          × (slot k c ≡ none)
          × (claim k held ≡ none)
          × (slot j held ≡ (if key_beq k j then some [] else slot j c)))
unfolding claim
claim_exclusive k j c = elim (Option-cases (slot k c)) [
  | inl free ↦ inr (
    record c { inflight = GoMap.insert k [] c.inflight },
    ground arith,
    free,
    ground (arith, lookup-insert k k [] c.inflight, key_beq_iff k k),
    lookup-insert k j [] c.inflight,
  )
  | inr (q, busy) ↦ inl (ground arith, ground arith)
]

release-claim :
    (k j : Key) (c : Coordinator) (slot_k : Option (List ProtocolEvent)) {held : Coordinator}
    → slot k c ≡ slot_k
    → claim k c ≡ some held
    → slot j (release k held) ≡ slot j c
unfolding claim release
release-claim k j c none {held} free h = ground (
  arith,
  lookup-delete k j (GoMap.insert k [] c.inflight),
  lookup-insert k j [] c.inflight,
  key_beq_iff k j,
)
release-claim k j c (some q) {held} busy h = absurd (ground arith)

release_after-settled :
    {A : Type 0} (k : Key) (outcome : Outcome A) (c : Coordinator)
    → outcome ≢ waiting
    → release_after k outcome c ≡ release k c
release_after-settled k (ok a) c h = refl
release_after-settled k (err e) c h = refl
release_after-settled k waiting c h = absurd (h refl)

module _ (answer : ℕ → Option WriteError) (target : Target) (mission_type now_ms : ℕ)
    (now : Timestamp) (script : List Arrival) (c : Coordinator) (j : Key) where
  transfer-claimed :
      (link : LinkId) (r : Option Coordinator)
      → HasEnd script
      → claim (slot_key target mission_type) c ≡ r
      → slot j (transfer answer target mission_type now script c (claimed link r)).1 ≡ slot j c
  unfolding claimed transfer
  transfer-claimed link none ends h = refl
  transfer-claimed link (some held) ends h =
      let w : Wire = record { arrivals = script; written = [] } in
      ap (slot j) (
        release_after-settled (slot_key target mission_type)
          (run answer target mission_type now w).0 held
          (run_settles answer target mission_type now w ends))
      ∙ release-claim (slot_key target mission_type) j c _ refl h

  transfer-routed :
      (r : Table × Option LinkId)
      → HasEnd script
      → slot j
          (transfer answer target mission_type now script c (routed target mission_type c r).1).1
        ≡ slot j c
  unfolding routed transfer
  transfer-routed (t, none) ends = refl
  transfer-routed (t, some link) ends = transfer-claimed link _ ends refl

  -- Once some wait of the script times out or is cancelled, a download leaves every slot as it was before the
  -- call, its own included, whether it was refused, failed or succeeded. So no outcome keeps a vehicle
  -- from being asked again.
  pub download_frees :
      (configured : Bool) (t : Table)
      → HasEnd script
      → slot j (download answer configured target mission_type now_ms now script t c).1 ≡ slot j c
  unfolding download open_download
  download_frees false t ends = transfer-routed (t, none) ends
  download_frees true t ends = transfer-routed _ ends
