-- ===== src/Tests.antt =====
-- The theorems of the library at concrete inputs, and test runs of the definitions.
pub mod Fixtures
mod TextOrder
mod Indexer
mod Replay
pub mod Admin
mod Totals
mod Metrics
mod Notifications
pub mod Applications
mod Links
mod Donors
mod Lifecycle
mod Reconcile
mod Impact
mod Ngos
mod DeadLetters
