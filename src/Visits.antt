-- ===== src/Visits.antt =====
-- The floor of the restaurant as the tables `tables` and `table_bill_groups` show it: a visit is an
-- open bill group, and its table is occupied.
pub mod Rows
pub mod Create
pub mod Payment
pub mod Floor
pub mod Race
pub mod Checkout
