-- ===== src/Indexer.antt =====
-- src/indexer: contract events, their handlers, dead letters, and the polling worker.
pub mod Event
pub mod Errors
pub mod DeadLetters
pub mod Vault
pub mod Registry
pub mod Frame
pub mod Dispatch
pub mod Worker
pub mod Lifecycle
