-- ===== src/Breaker/Tests.antt =====
-- Runs of the circuit breaker on small inputs.
use model_lib.Base.{◌≡◌, refl, true, false, [], ◌∷◌, ◌++◌, map, arith}
use model_lib.Breaker.{
  CircuitBreaker, opened, init, record_failure, failure, request, success, step, run,
}
use model_lib.Breaker.Probe.{IsCoherent, run-init-IsCoherent, answers, answers-one_probe, one_probe}
use model_lib.Breaker.Threshold.{state-run-failures}

-- Two failures at times 5 and 7 open a breaker with threshold 2 and recovery time 10.
abbrev tripped : CircuitBreaker
tripped = run (init 2 10) (failure 5 ∷ failure 7 ∷ [])

run-init-IsCoherent_example : IsCoherent (run (init 2 10) (failure 5 ∷ failure 7 ∷ request 18 ∷ []))
run-init-IsCoherent_example = run-init-IsCoherent 2 10 (failure 5 ∷ failure 7 ∷ request 18 ∷ [])

answers-one_probe_example : answers tripped (12 ∷ 17 ∷ 18 ∷ []) ≡ one_probe 17 (12 ∷ 17 ∷ 18 ∷ [])
unfolding run step init record_failure
answers-one_probe_example = answers-one_probe tripped 7 (12 ∷ 17 ∷ 18 ∷ []) refl refl

one_probe_run : one_probe 17 (12 ∷ 17 ∷ 18 ∷ []) ≡ false ∷ true ∷ false ∷ []
unfolding one_probe
one_probe_run = refl

state-run-failures_example :
    (run (init 2 10) ((failure 1 ∷ []) ++ success ∷ map failure (5 ∷ 7 ∷ []))).state ≡ opened
state-run-failures_example = state-run-failures 2 10 (failure 1 ∷ []) (5 ∷ 7 ∷ []) (omega arith)
