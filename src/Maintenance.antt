-- ===== src/Maintenance.antt =====
-- src/maintenance: the jobs that keep the database small.
pub mod LogRetention
