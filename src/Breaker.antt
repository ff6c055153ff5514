-- ===== src/Breaker.antt =====
-- backend/app/services/circuit_breaker.py: the circuit breaker. Each method runs under the object's
-- lock, so it is one step on the state; the clock's value is an argument, in the unit of the
-- recovery time. The proofs are in the modules below.
pub mod Probe
pub mod Threshold
mod Tests
use model_lib.Base.{
  ℕ, ◌+◌, Bool, true, false, Option, none, some, List, [], ◌∷◌, ltb, leb, if◌then◌else◌,
}

pub data CircuitState : Type 0 where
  closed opened half_open : CircuitState

pub record CircuitBreaker : Type 0 where
  pub failure_threshold : ℕ
  pub recovery_seconds : ℕ
  pub state : CircuitState
  pub failure_count : ℕ
  pub opened_at : Option ℕ
  pub half_open_probe_in_flight : Bool

pub init : ℕ → ℕ → CircuitBreaker
init failure_threshold recovery_seconds = record {
  failure_threshold = failure_threshold;
  recovery_seconds = recovery_seconds;
  state = closed;
  failure_count = 0;
  opened_at = none;
  half_open_probe_in_flight = false;
}

start_probe : CircuitBreaker → CircuitBreaker
start_probe b = record b { state = half_open; half_open_probe_in_flight = true }

-- The branch of an open breaker; `now - opened_at < recovery` is written as a sum.
allow_opened : CircuitBreaker → Option ℕ → ℕ → CircuitBreaker × Bool
unfolding start_probe
allow_opened b none now = (b, false)
allow_opened b (some t) now =
    if ltb now (t + b.recovery_seconds) then (b, false) else (start_probe b, true)

allow_half_open : CircuitBreaker → CircuitBreaker × Bool
allow_half_open b =
    if b.half_open_probe_in_flight
    then (b, false)
    else (record b { half_open_probe_in_flight = true }, true)

allow_in : CircuitState → CircuitBreaker → ℕ → CircuitBreaker × Bool
unfolding allow_opened allow_half_open
allow_in closed b now = (b, true)
allow_in opened b now = allow_opened b b.opened_at now
allow_in half_open b now = allow_half_open b

pub allow_request : CircuitBreaker → ℕ → CircuitBreaker × Bool
unfolding allow_in
allow_request b now = allow_in b.state b now

pub record_success : CircuitBreaker → CircuitBreaker
record_success b = record b {
  state = closed;
  failure_count = 0;
  opened_at = none;
  half_open_probe_in_flight = false;
}

-- `_open`
trip : CircuitBreaker → ℕ → CircuitBreaker
trip b now = record b { state = opened; opened_at = some now; half_open_probe_in_flight = false }

count_failure : CircuitBreaker → ℕ → CircuitBreaker
unfolding trip
count_failure b now =
    let c = record b { failure_count = b.failure_count + 1 } in
    if leb b.failure_threshold (b.failure_count + 1) then trip c now else c

failure_in : CircuitState → CircuitBreaker → ℕ → CircuitBreaker
unfolding count_failure
failure_in half_open b now = trip b now
failure_in _ b now = count_failure b now

pub record_failure : CircuitBreaker → ℕ → CircuitBreaker
unfolding failure_in
record_failure b now = failure_in b.state b now

pub data Call : Type 0 where
  request failure : ℕ → Call
  success : Call

pub step : CircuitBreaker → Call → CircuitBreaker
step b (request now) = (allow_request b now).0
step b (failure now) = record_failure b now
step b success = record_success b

pub run : CircuitBreaker → List Call → CircuitBreaker
run b [] = b
run b (c ∷ cs) = run (step b c) cs
