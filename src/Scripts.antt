-- ===== src/Scripts.antt =====
-- src/scripts: the operators' scripts.
pub mod Replay
pub mod Reconcile
