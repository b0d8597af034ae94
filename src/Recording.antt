-- ===== src/Recording.antt =====
-- internal/recording: the store of recorded flights.
pub mod Database
pub mod Store
pub mod Retention
pub mod Publish
pub mod Writer
pub mod Loop
pub mod Replay
pub mod Lifecycle
pub mod World
pub mod Sub
pub mod Deletion
pub mod Spared
pub mod Ends
pub mod Settled
pub mod Flushed
pub mod Trace
pub mod Accepted
pub mod Calls
pub mod Delivered
pub mod Roundtrip
pub mod Persisted
pub mod Stops
pub mod Capped
pub mod Limit
pub mod Passes
pub mod Quiet
pub mod Numbers
pub mod Numbered
