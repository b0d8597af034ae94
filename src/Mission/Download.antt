-- ===== src/Mission/Download.antt =====
-- Download of internal/mission/coordinator.go around its transaction: the route, the slot, the release.
use yalb_link.Prelude.{ℕ, Bool, true, false, Option, none, some, List, []}
use yalb_link.Codec.{Target, LinkId}
use yalb_link.Proto.{Timestamp}
use yalb_link.Proto.Transactions.{MissionSnapshot}
use yalb_link.Routes.{Table, resolve}
use yalb_link.Mission.Key.{Key, DownloadError}
use yalb_link.Codec.{WriteError}
use yalb_link.Mission.Coordinator.{Coordinator, claim, release}
use yalb_link.Mission.Transfer.{Arrival, Outcome, ok, err, waiting, run}

abbrev pub slot_key : Target → ℕ → Key
slot_key target mission_type = record {
  sys_id = target.system_id;
  comp_id = target.component_id;
  mission_type = mission_type;
}

-- The link to write to, and the coordinator with the slot held; or why there is none.
pub data Opening : Type 0 where
  opened : LinkId → Coordinator → Opening
  refused : DownloadError → Opening

unfoldable pub claimed : LinkId → Option Coordinator → Opening
claimed link none = refused DownloadError.in_flight
claimed link (some c) = opened link c

unfoldable pub routed : Target → ℕ → Coordinator → Table × Option LinkId → Table × Opening
unfolding claimed
routed target mission_type c (t, none) = (t, refused DownloadError.no_route)
routed target mission_type c (t, some link) =
    (t, claimed link (claim (slot_key target mission_type) c))

-- Download up to the claim. `configured` says that Source and Routes are set.
unfoldable pub open_download : Bool → Target → ℕ → ℕ → Table → Coordinator → Table × Opening
unfolding routed
open_download false target mission_type now_ms t c = (t, refused DownloadError.no_route)
open_download true target mission_type now_ms t c =
    routed target mission_type c
      (resolve (record { sys_id = target.system_id; comp_id = target.component_id }) now_ms t)

-- The deferred release, which runs when run returns.
abbrev pub release_after : {A : Type 0} → Key → Outcome A → Coordinator → Coordinator
release_after k (ok a) c = release k c
release_after k (err e) c = release k c
release_after k waiting c = c

unfoldable pub transfer :
    (ℕ → Option WriteError)
    → Target
    → ℕ
    → Timestamp
    → List Arrival
    → Coordinator
    → Opening
    → Outcome MissionSnapshot × Coordinator
transfer answer target mission_type now script c (refused e) = (err e, c)
transfer answer target mission_type now script c (opened link held) =
    let outcome =
      (run answer target mission_type now (record { arrivals = script; written = [] })).0 in
    (outcome, release_after (slot_key target mission_type) outcome held)

-- The call, or its part until the script of arrivals is used up, where no other call of the coordinator stands between its claim and its release. The
-- routes are those that open_download leaves.
unfoldable pub download :
    (ℕ → Option WriteError)
    → Bool
    → Target
    → ℕ
    → ℕ
    → Timestamp
    → List Arrival
    → Table
    → Coordinator
    → Outcome MissionSnapshot × Coordinator
unfolding transfer
download answer configured target mission_type now_ms now script t c =
    transfer answer target mission_type now script c
      (open_download configured target mission_type now_ms t c).1
