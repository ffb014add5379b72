-- ===== src/Billing.antt =====
-- apps/api/src/modules/billing: the payment that settles a visit, the bill, and the shifts.
pub mod Payment
pub mod Service
pub mod Shifts
