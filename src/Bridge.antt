-- ===== src/Bridge.antt =====
-- internal/bridge: the receive pipeline from frames to sinks, and the telemetry rates it asks for.
pub mod Pipeline
pub mod Rates
pub mod Frames
pub mod Requests
