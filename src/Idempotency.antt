-- ===== src/Idempotency.antt =====
-- backend/app/idempotency: the ledger that gives each task one execution.
pub mod Ledger
