-- ===== src/Security.antt =====
-- backend/app/security: who may do what.
pub mod Permissions
pub mod RateLimit
