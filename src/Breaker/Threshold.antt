-- ===== src/Breaker/Threshold.antt =====
-- When the circuit breaker opens: by the failures since the last success.
use model_lib.Base.{
  ℕ, ◌+◌, ◌<◌, ◌≡◌, refl, ap, ◌∙◌, inl, inr, true, false, List, [], ◌∷◌, ◌++◌, map, arith, length,
  leb, Bool-cases, if◌then◌else◌,
}
use model_lib.Breaker.{
  CircuitState, closed, opened, CircuitBreaker, init, allow_request, record_success, record_failure,
  Call, request, failure, success, step, run,
}

run-append : (b : CircuitBreaker) (cs ds : List Call) → run b (cs ++ ds) ≡ run (run b cs) ds
unfolding run
run-append b [] ds = refl
run-append b (c ∷ cs) ds = run-append (step b c) cs ds

failure_threshold-step :
    (b : CircuitBreaker) (c : Call) → (step b c).failure_threshold ≡ b.failure_threshold
unfolding step allow_request record_failure record_success
failure_threshold-step b (request now) = ground arith
failure_threshold-step b (failure now) = ground arith
failure_threshold-step b success = refl

failure_threshold-run :
    (b : CircuitBreaker) (cs : List Call) → (run b cs).failure_threshold ≡ b.failure_threshold
unfolding run
failure_threshold-run b [] = refl
failure_threshold-run b (c ∷ cs) = failure_threshold-run (step b c) cs ∙ failure_threshold-step b c

record_failure-opened :
    (b : CircuitBreaker) (t : ℕ) → b.state ≡ opened → (record_failure b t).state ≡ opened
unfolding record_failure
record_failure-opened b t e = ground arith

run-opened :
    (b : CircuitBreaker) (ts : List ℕ) → b.state ≡ opened → (run b (map failure ts)).state ≡ opened
unfolding run step
run-opened b [] e = e
run-opened b (t ∷ ts) e = run-opened (record_failure b t) ts (record_failure-opened b t e)

-- The state after `count` failures since the last success.
state_after : ℕ → ℕ → CircuitState
state_after threshold count = if leb threshold count then opened else closed

record_failure-below :
    (b : CircuitBreaker) (t : ℕ)
    → b.state ≡ closed
    → leb b.failure_threshold (b.failure_count + 1) ≡ false
    → record_failure b t ≡ record b { failure_count = b.failure_count + 1 }
unfolding record_failure
record_failure-below b t e h = ground arith

record_failure-reached :
    (b : CircuitBreaker) (t : ℕ)
    → b.state ≡ closed
    → leb b.failure_threshold (b.failure_count + 1) ≡ true
    → (record_failure b t).state ≡ opened
unfolding record_failure
record_failure-reached b t e h = ground arith

run-failures :
    (b : CircuitBreaker) (ts : List ℕ)
    → b.state ≡ closed
    → b.failure_count < b.failure_threshold
    → (run b (map failure ts)).state ≡ state_after b.failure_threshold (b.failure_count + length ts)
unfolding run step state_after
run-failures b [] e h = ground arith
run-failures b (t ∷ ts) e h = elim (Bool-cases (leb b.failure_threshold (b.failure_count + 1))) [
  | inl reached ↦ ground (
    arith,
    record_failure-reached b t e reached,
    run-opened (record_failure b t) ts (record_failure-reached b t e reached),
  )
  | inr below ↦
      let c = record b { failure_count = b.failure_count + 1 } in
      ap (λ (d : CircuitBreaker). (run d (map failure ts)).state) (record_failure-below b t e below)
      ∙ ground (arith, run-failures c ts e (ground arith))
]

-- Whatever happened before, after a success and then `n` failures in a row the breaker is open
-- exactly when `n` has reached the (positive) threshold, and closed otherwise.
pub state-run-failures :
    (threshold recovery : ℕ) (cs : List Call) (ts : List ℕ)
    → 0 < threshold
    → (run (init threshold recovery) (cs ++ success ∷ map failure ts)).state
      ≡ (if leb threshold (length ts) then opened else closed)
unfolding init run step record_success state_after
state-run-failures threshold recovery cs ts h =
    let b = run (init threshold recovery) cs in
    let e : b.failure_threshold ≡ threshold = failure_threshold-run (init threshold recovery) cs in
    let fresh = record_success b in
    ap (λ (d : CircuitBreaker). d.state)
      (run-append (init threshold recovery) cs (success ∷ map failure ts))
    ∙ ground (arith, e, run-failures fresh ts refl (omega arith))
