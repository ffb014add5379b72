-- ===== src/Orders.antt =====
-- apps/api/src/modules/orders: the order lifecycle, its persistence and its service.
pub mod Machine
pub mod Repository
pub mod Service
