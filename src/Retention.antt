-- ===== src/Retention.antt =====
-- The retention sweeps: workers/job-retention.ts and workers/context-retention.ts.
pub mod Sweep
pub mod Kept
pub mod Ends
pub mod Deleted
mod Tests
