-- ===== src/Routes/Applications.antt =====
-- src/routes/ngoApplications.ts: applications of NGOs, from the challenge to the review.
pub mod Schema
pub mod Services
pub mod Submit
pub mod Review
pub mod Read
pub mod Evolution
pub mod Kept
pub mod Sequences
pub mod Notified
