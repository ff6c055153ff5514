-- ===== src/Locks.antt =====
-- The execution lock: backend/app/locks/redis_execution_lock.py.
pub mod Execution
