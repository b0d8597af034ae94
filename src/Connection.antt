-- ===== src/Connection.antt =====
-- internal/connection: saved connection profiles and the devices that they name.
pub mod Profiles
pub mod Select
pub mod Startup
pub mod Atomic
pub mod Saved
pub mod Chosen
pub mod Opening
