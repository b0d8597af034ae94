-- ===== src/Examples.antt =====
-- The theorems applied to concrete inputs, and runs of the definitions on them.
mod Command
mod Routes
mod Vehicle
mod Mission
mod Stream
mod Bridge
mod Recording
mod Connection
