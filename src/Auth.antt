-- ===== src/Auth.antt =====
-- apps/api/src/modules/auth: the lockout of PINs and the guard of permissions.
pub mod Pin
pub mod Permissions
