-- ===== src/Stream.antt =====
-- internal/stream: the events that browsers receive.
pub mod Hub
pub mod Follows
pub mod Delivery
pub mod Bootstrap
