-- ===== src/Memory.antt =====
-- backend/app/shared_memory: facts that the dispatch agents share.
pub mod Policy
