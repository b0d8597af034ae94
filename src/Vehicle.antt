-- ===== src/Vehicle.antt =====
-- internal/vehicle: the deterministic fold of one vehicle's frames into its state and events.
pub mod Event
pub mod State
pub mod Fold
pub mod Trace
pub mod Arming
pub mod Lifecycle
pub mod Stamps
pub mod Freshness
pub mod Snapshot
pub mod Conflicts
pub mod Heading
