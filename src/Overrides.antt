-- ===== src/Overrides.antt =====
-- backend/app/runtime_overrides: operator changes of a running dispatch.
pub mod Policy
