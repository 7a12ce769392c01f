-- ===== src/Delivery.antt =====
-- Comment delivery: services/comment-delivery.service.ts, services/comment-delivery-report.ts and the
-- outcome of a post in services/github.service.ts.
pub mod Row
pub mod Outcome
mod Classify
pub mod Report
pub mod Race
mod Potential
pub mod Once
pub mod Final
mod Links
pub mod Attempts
mod Tests
