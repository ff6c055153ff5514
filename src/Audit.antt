-- ===== src/Audit.antt =====
-- backend/app/audit: the rules by which a dispatch is approved, rejected or sent to review.
pub mod Value
pub mod Path
pub mod Rules
pub mod Records
