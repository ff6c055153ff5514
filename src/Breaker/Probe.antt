-- ===== src/Breaker/Probe.antt =====
-- The half-open state of the circuit breaker: one trial request, and none before the recovery time.
use model_lib.Base.{
  ℕ, ◌+◌, ◌≡◌, refl, ap, inl, inr, Bool, true, false, Option, some, List, [], ◌∷◌, map, arith,
  Bool-cases, ltb, if◌then◌else◌,
}
use model_lib.Breaker.{
  CircuitState, closed, opened, half_open, CircuitBreaker, init, allow_request, record_success,
  record_failure, Call, request, failure, success, step, run,
}

-- What the fields say of one another in each state.
abbrev pub Coherent : CircuitState → Option ℕ → Bool → Type 0
Coherent closed t probe = probe ≡ false
Coherent opened t probe = (probe ≡ false) × ((at : ℕ) × (t ≡ some at))
Coherent half_open t probe = probe ≡ true

abbrev pub IsCoherent : CircuitBreaker → Type 0
IsCoherent b = Coherent b.state b.opened_at b.half_open_probe_in_flight

allow_request-IsCoherent :
    (b : CircuitBreaker) (now : ℕ) → IsCoherent b → IsCoherent (allow_request b now).0
unfolding allow_request
allow_request-IsCoherent b now h = ground arith

record_failure-IsCoherent :
    (b : CircuitBreaker) (now : ℕ) → IsCoherent b → IsCoherent (record_failure b now)
unfolding record_failure
record_failure-IsCoherent b now h = ground arith

step-IsCoherent : (b : CircuitBreaker) (c : Call) → IsCoherent b → IsCoherent (step b c)
unfolding step record_success
step-IsCoherent b (request now) h = allow_request-IsCoherent b now h
step-IsCoherent b (failure now) h = record_failure-IsCoherent b now h
step-IsCoherent b success h = refl

run-IsCoherent : (b : CircuitBreaker) (cs : List Call) → IsCoherent b → IsCoherent (run b cs)
unfolding run
run-IsCoherent b [] h = h
run-IsCoherent b (c ∷ cs) h = run-IsCoherent (step b c) cs (step-IsCoherent b c h)

-- After any calls on a new breaker: in the closed state no probe is in flight, in the open state
-- none is and the opening time is set, and in the half-open state exactly the one probe is.
pub run-init-IsCoherent :
    (threshold recovery : ℕ) (cs : List Call) → IsCoherent (run (init threshold recovery) cs)
unfolding init
run-init-IsCoherent threshold recovery cs = run-IsCoherent _ cs refl

-- The answers to a row of requests.
pub answers : CircuitBreaker → List ℕ → List Bool
answers b [] = []
answers b (t ∷ ts) = (allow_request b t).1 ∷ answers (allow_request b t).0 ts

-- What an open breaker should answer until an outcome is recorded: refuse before the deadline,
-- admit the first request from then on, and refuse the others.
unfoldable pub one_probe : ℕ → List ℕ → List Bool
one_probe deadline [] = []
one_probe deadline (t ∷ ts) =
    if ltb t deadline then false ∷ one_probe deadline ts else true ∷ map (λ _. false) ts

allow_request-probing :
    (b : CircuitBreaker) (t : ℕ)
    → b.state ≡ half_open
    → b.half_open_probe_in_flight ≡ true
    → allow_request b t ≡ (b, false)
unfolding allow_request
allow_request-probing b t e p = ground arith

answers-probing :
    (b : CircuitBreaker) (ts : List ℕ)
    → b.state ≡ half_open
    → b.half_open_probe_in_flight ≡ true
    → answers b ts ≡ map (λ _. false) ts
unfolding answers
answers-probing b [] e p = refl
answers-probing b (t ∷ ts) e p =
    rw (allow_request-probing b t e p) (ap (◌∷◌ false) (answers-probing b ts e p))

allow_request-early :
    (b : CircuitBreaker) (opening t : ℕ)
    → b.state ≡ opened
    → b.opened_at ≡ some opening
    → ltb t (opening + b.recovery_seconds) ≡ true
    → allow_request b t ≡ (b, false)
unfolding allow_request
allow_request-early b opening t e o early = ground arith

allow_request-due :
    (b : CircuitBreaker) (opening t : ℕ)
    → b.state ≡ opened
    → b.opened_at ≡ some opening
    → ltb t (opening + b.recovery_seconds) ≡ false
    → allow_request b t ≡ (record b { state = half_open; half_open_probe_in_flight = true }, true)
unfolding allow_request
allow_request-due b opening t e o due = ground arith

-- While no outcome is recorded, an open breaker refuses every request before its recovery time,
-- admits the first one after it as the probe, and refuses all that follow.
pub answers-one_probe :
    (b : CircuitBreaker) (opening : ℕ) (ts : List ℕ)
    → b.state ≡ opened
    → b.opened_at ≡ some opening
    → answers b ts ≡ one_probe (opening + b.recovery_seconds) ts
unfolding answers one_probe
answers-one_probe b opening [] e o = refl
answers-one_probe b opening (t ∷ ts) e o =
    elim (Bool-cases (ltb t (opening + b.recovery_seconds))) [
      | inl early ↦
          rw (allow_request-early b opening t e o early, early)
            (ap (◌∷◌ false) (answers-one_probe b opening ts e o))
      | inr due ↦
          rw (allow_request-due b opening t e o due, due)
            (ap (◌∷◌ true) (answers-probing _ ts refl refl))
    ]
