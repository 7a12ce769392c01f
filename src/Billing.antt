-- ===== src/Billing.antt =====
-- Billing: the events of the payment provider, and the checkout guard.
mod Sync
mod Order
mod Mirror
mod Tests
