-- ===== src/Worker/Retry.antt =====
-- backend/app/streams/retry.py: how often a message is delivered again, and after which delay. A
-- delivery count is at least 1 (the queue counts from 1), so `2 ** (delivery_count - 1)` is a whole
-- number.
use native.Mathlib.Nat.{pow-suc, pow-zero}
use model_lib.Base.{ℕ, suc, ◌-◌, ◌*◌, ◌^◌, ◌≤◌, ◌<◌, ◌≡◌, ap, Bool, true, false, arith, min, ltb}

pub record RetryPolicy : Type 0 where
  pub max_delivery_attempts : ℕ
  pub base_delay_ms : ℕ
  pub max_delay_ms : ℕ

pub should_retry : RetryPolicy → ℕ → Bool
should_retry p delivery_count = ltb delivery_count p.max_delivery_attempts

pub backoff_ms : RetryPolicy → ℕ → ℕ
backoff_ms p delivery_count = min (p.base_delay_ms * 2 ^ (delivery_count - 1)) p.max_delay_ms

pub should_retry_lt :
    (p : RetryPolicy) (n : ℕ) → should_retry p n ≡ true → n < p.max_delivery_attempts
unfolding should_retry
should_retry_lt p n e = ground arith

pub should_retry_ge :
    (p : RetryPolicy) (n : ℕ) → should_retry p n ≡ false → p.max_delivery_attempts ≤ n
unfolding should_retry
should_retry_ge p n e = ground arith

-- The delay that follows a delay of `d`.
pub doubled : RetryPolicy → ℕ → ℕ
doubled p d = min (2 * d) p.max_delay_ms

pred_next_suc : (n : ℕ) → suc (suc n) - 1 ≡ suc n
pred_next_suc n = omega arith

pred_suc : (n : ℕ) → suc n - 1 ≡ n
pred_suc n = omega arith

-- The first delay is the base delay, and each later one is twice the one before it, all cut at the
-- largest delay.
pub backoff_ms_doubles :
    (p : RetryPolicy) (n : ℕ)
    → (backoff_ms p 1 ≡ min p.base_delay_ms p.max_delay_ms)
      × (backoff_ms p (suc (suc n)) ≡ doubled p (backoff_ms p (suc n)))
unfolding backoff_ms doubled
backoff_ms_doubles p n = (
  grind (arith, pow-zero),
  omega (
    arith,
    ap (λ k. p.base_delay_ms * 2 ^ k) (pred_next_suc n),
    ap (λ k. p.base_delay_ms * 2 ^ k) (pred_suc n),
    ap (λ t. p.base_delay_ms * t) (pow-suc 2 n),
  ),
)
