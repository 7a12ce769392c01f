-- ===== src/Intake.antt =====
-- How reviews enter the system: controllers/webhook.controller.ts and workers/repo-poller.ts.
pub mod State
pub mod Payload
pub mod Webhook
pub mod Installation
pub mod Silent
pub mod Poller
pub mod Once
pub mod Delivery
pub mod System
mod Tests
