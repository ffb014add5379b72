-- ===== src/Billing/Payment.antt =====
-- `recordPaymentTransaction` of billing.repository.ts, and the reads of that file.
mod Admission
mod Charging
pub mod Refusals
pub mod Money
pub mod Settling
unfoldable pub use Admission.*
unfoldable pub use Charging.*
