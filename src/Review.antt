-- ===== src/Review.antt =====
-- The review lifecycle: workers/job-state.ts and services/review-quota.ts.
pub mod Status
pub mod Job
pub mod Lifecycle
pub mod Recovery
pub mod Disconnect
mod Spread
mod Written
mod Sweep
mod Tests
mod SweepTests
