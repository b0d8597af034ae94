-- ===== src/Command.antt =====
-- internal/command: the operator's arm and disarm commands, from the request to its settled transaction.
pub mod Registry
pub mod Settle
pub mod Arm
pub mod Steps
pub mod Admission
pub mod Unresolved
pub mod Acks
pub mod Poisoned
pub mod Handler
pub mod Holds
pub mod Exclusive
