-- ===== src/Analytics.antt =====
-- apps/api/src/modules/analytics: the reports. They only read.
pub mod Repository
pub mod Range
pub mod Aggregates
pub mod Points
pub mod Agreement
pub mod Facts
pub mod Derived
pub mod Peaks
pub mod Staff
pub mod Service
pub mod Rankings
pub mod Days
pub mod Balance
