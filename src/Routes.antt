-- ===== src/Routes.antt =====
-- src/routes: what the HTTP routes compute.
pub mod Reply
pub mod Keyset
pub mod TokenTotals
pub mod NgoRows
pub mod Impact
pub mod Ngos
pub mod DeadLetters
pub mod Cacheable
pub mod IndexerStatus
pub mod Applications
pub mod Donors
