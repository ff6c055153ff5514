-- ===== src/Locks/Execution.antt =====
-- `RedisExecutionLock` of backend/app/locks/redis_execution_lock.py. The Redis client is a parameter;
-- a transaction is one step, and a client that raises, which makes the lock raise, is left out.
pub mod Exclusive
mod Tests
use model_lib.Base.{
  ℕ, String, Bool, true, false, Option, none, some, List, [], ◌∷◌, ◌≡◌, ◌≢◌, if◌then◌else◌,
}
use model_lib.Base.Eq.{◌==◌, string_eq, option_eq}
use Prim.Native.String.{◌++◌ as append}

-- The store and its operations: `get`, `set` with nx and px, `pexpire` and `delete`
pub record RedisClient : Type 1 where
  pub Store : Type 0
  pub get : Store → String → Option String
  pub set_nx : Store → String → String → ℕ → Bool × Store
  pub pexpire : Store → String → ℕ → Store
  pub delete : Store → String → Store

-- What the operations are documented to do, while no key runs out
pub record IsRedis (c : RedisClient) : Type 0 where
  pub set_free :
      (s : c.Store) (k v : String) (t : ℕ)
      → c.get s k ≡ none
      → ((c.set_nx s k v t).0 ≡ true) × (c.get (c.set_nx s k v t).1 k ≡ some v)
  pub set_taken :
      (s : c.Store) (k v w : String) (t : ℕ)
      → c.get s k ≡ some w
      → ((c.set_nx s k v t).0 ≡ false) × (c.get (c.set_nx s k v t).1 k ≡ some w)
  pub set_aside :
      (s : c.Store) (k v j : String) (t : ℕ)
      → (k == j) ≡ false
      → c.get (c.set_nx s k v t).1 j ≡ c.get s j
  pub pexpire_get : (s : c.Store) (k j : String) (t : ℕ) → c.get (c.pexpire s k t) j ≡ c.get s j
  pub delete_aside :
      (s : c.Store) (k j : String) → (k == j) ≡ false → c.get (c.delete s k) j ≡ c.get s j

pub record LockHandle : Type 0 where
  pub key : String
  pub token : String
  pub acquired : Bool

unfoldable pub lock_key : String → String
lock_key idempotency_key = append "countyflow:lock:dispatch:" idempotency_key

pub data Call : Type 0 where
  acquiring : String → String → Call
  renewing releasing : LockHandle → Call

-- The token that a call writes or compares
unfoldable pub token_of : Call → String
token_of (acquiring idempotency_key token) = token
token_of (renewing h) = h.token
token_of (releasing h) = h.token

module _ (c : RedisClient) (ttl_ms : ℕ) where
  unfoldable pub handle_of : String → String → Bool × c.Store → LockHandle × c.Store
  handle_of key token (acquired, s) = (record { key = key; token = token; acquired = acquired }, s)

  unfoldable pub acquire : c.Store → String → String → LockHandle × c.Store
  acquire s idempotency_key token =
      handle_of (lock_key idempotency_key) token
        (c.set_nx s (lock_key idempotency_key) token ttl_ms)

  unfoldable pub renew : c.Store → LockHandle → Bool × c.Store
  renew s h =
      if h.acquired
      then (if c.get s h.key == some h.token then (true, c.pexpire s h.key ttl_ms) else (false, s))
      else (false, s)

  unfoldable pub release : c.Store → LockHandle → Bool × c.Store
  release s h =
      if h.acquired
      then (if c.get s h.key == some h.token then (true, c.delete s h.key) else (false, s))
      else (false, s)

  unfoldable pub perform : c.Store → Call → c.Store
  perform s (acquiring idempotency_key token) = (acquire s idempotency_key token).1
  perform s (renewing h) = (renew s h).1
  perform s (releasing h) = (release s h).1

  unfoldable pub perform_all : c.Store → List Call → c.Store
  perform_all s [] = s
  perform_all s (call ∷ calls) = perform_all (perform s call) calls
