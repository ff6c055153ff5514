-- ===== src/Locks/Execution/Exclusive.antt =====
-- A granted lock and the calls of others.
use model_lib.Base.{
  ℕ, String, true, false, none, some, List, [], ◌∷◌, ◌≡◌, ◌≢◌, ◌∙◌, All, Bool-cases, inl, inr,
  arith,
}
use model_lib.Base.Eq.{◌==◌, string_eq, option_eq, ==_iff}
use model_lib.Locks.Execution.{
  RedisClient, IsRedis, LockHandle, lock_key, Call, acquiring, renewing, releasing, token_of,
  handle_of, acquire, renew, release, perform, perform_all,
}

module _ (c : RedisClient) (r : IsRedis c) (ttl_ms : ℕ) (h : LockHandle) where
  perform_keeps :
      (s : c.Store) (call : Call)
      → token_of call ≢ h.token
      → c.get s h.key ≡ some h.token
      → c.get (perform c ttl_ms s call) h.key ≡ some h.token
  unfolding perform acquire handle_of renew release token_of
  perform_keeps s (acquiring id token) other held = elim (Bool-cases (lock_key id == h.key)) [
    | inl e ↦ ground (
      arith,
      ==_iff (lock_key id) h.key,
      e,
      held,
      r.set_taken s (lock_key id) token h.token ttl_ms,
    )
    | inr e ↦ r.set_aside s (lock_key id) token h.key ttl_ms e ∙ held
  ]
  perform_keeps s (renewing g) other held = ground (arith, held, r.pexpire_get s g.key h.key ttl_ms)
  perform_keeps s (releasing g) other held = ground (
    arith,
    held,
    other,
    r.delete_aside s g.key h.key,
    ==_iff g.key h.key,
    ==_iff (c.get s g.key) (some g.token),
  )

  perform_all_keeps :
      (s : c.Store) (calls : List Call)
      → All (λ call. token_of call ≢ h.token) calls
      → c.get s h.key ≡ some h.token
      → c.get (perform_all c ttl_ms s calls) h.key ≡ some h.token
  unfolding perform_all
  perform_all_keeps s [] others held = held
  perform_all_keeps s (call ∷ calls) (o, others) held =
      perform_all_keeps (perform c ttl_ms s call) calls others (perform_keeps s call o held)

  renew_held :
      (s : c.Store)
      → h.acquired ≡ true
      → c.get s h.key ≡ some h.token
      → (renew c ttl_ms s h).0 ≡ true
  unfolding renew
  renew_held s granted held = ground (arith, granted, held, ==_iff (c.get s h.key) (some h.token))

  release_held :
      (s : c.Store)
      → h.acquired ≡ true
      → c.get s h.key ≡ some h.token
      → (release c ttl_ms s h).0 ≡ true
  unfolding release
  release_held s granted held = ground (arith, granted, held, ==_iff (c.get s h.key) (some h.token))

-- Whatever calls with other tokens come after it, and while its key does not run out, a lock that was
-- granted stays its holder's: it is granted to no other token, and the holder renews and releases it.
pub granted_alone :
    (c : RedisClient) (ttl_ms : ℕ) (s : c.Store) (idempotency_key token other_token : String)
    (calls : List Call)
    → IsRedis c
    → c.get s (lock_key idempotency_key) ≡ none
    → All (λ call. token_of call ≢ token) calls
    → let granted = acquire c ttl_ms s idempotency_key token in
      let after = perform_all c ttl_ms granted.1 calls in
      (granted.0.acquired ≡ true)
      × ((acquire c ttl_ms after idempotency_key other_token).0.acquired ≡ false)
      × ((renew c ttl_ms after granted.0).0 ≡ true)
      × ((release c ttl_ms after granted.0).0 ≡ true)
unfolding acquire handle_of renew release
granted_alone c ttl_ms s idempotency_key token other_token calls r free others =
    let key = lock_key idempotency_key in
    let granted = acquire c ttl_ms s idempotency_key token in
    let after = perform_all c ttl_ms granted.1 calls in
    let (was_set, set) = r.set_free s key token ttl_ms free in
    let held = perform_all_keeps c r ttl_ms granted.0 granted.1 calls others set in
    (
      was_set,
      (r.set_taken after key other_token token ttl_ms held).0,
      renew_held c r ttl_ms granted.0 after was_set held,
      release_held c r ttl_ms granted.0 after was_set held,
    )
