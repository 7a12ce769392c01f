-- ===== src/Quota.antt =====
-- The review quota: services/quota.service.ts and services/entitlement.service.ts.
pub mod Entitlement
pub mod Usage
pub mod Reserve
pub mod Charge
pub mod Preflight
pub mod Balance
mod Entries
pub mod Receipts
mod Tests
