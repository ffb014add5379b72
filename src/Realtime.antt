-- ===== src/Realtime.antt =====
-- apps/api/src/common/realtime: who is online, and who receives which event.
pub mod Presence
pub mod Routing
