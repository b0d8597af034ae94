-- ===== src/Mission.antt =====
-- internal/mission/coordinator.go: the read-only mission download and the correlation of responses.
pub mod Key
pub mod Coordinator
pub mod Transfer
pub mod Download
pub mod Script
pub mod Fetch
pub mod Sound
pub mod Complete
pub mod Settles
pub mod Slots
pub mod Correlation
