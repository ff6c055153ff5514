-- ===== src/Worker/Receive/Limit.antt =====
-- The delivery limit and what is done to a recovered message.
use model_lib.Base.{ℕ, ◌≤◌, ◌<◌, ◌≡◌, ◌⊎◌, List, [], ◌∷◌, All, Option, none, some}
use model_lib.Worker.Effects.{Effect, graph_ran, acknowledged, slept, failed}
use model_lib.Worker.Retry.{RetryPolicy, backoff_ms}
use model_lib.Worker.Emits.{Emits}
use model_lib.Worker.Process.Lock.{Handled}

-- What may happen to a message that is given up.
abbrev pub Buried : Effect → Type 0
Buried graph_ran = ⊥
Buried acknowledged = ⊥
Buried (slept ms) = ⊥
Buried (failed e) = Buried e
Buried _ = Unit

-- A pause of `ms`, then the effects `run` of processing the message, in which it is not
-- dead-lettered and there is no other pause; or only the pause, if that raises.
abbrev pub Retried : ℕ → List Effect → List Effect → Type 0
Retried ms run (slept t ∷ es) = (t ≡ ms) × (es ≡ run) × All Handled es
Retried ms run (failed (slept t) ∷ []) = t ≡ ms
Retried ms run _ = ⊥

-- The effects of recovering a message with a delivery count, given those of processing it.
abbrev pub Recovered : RetryPolicy → List Effect → Option ℕ → List Effect → Type 0
Recovered p run none es = es ≡ []
Recovered p run (some count) es =
    ((p.max_delivery_attempts ≤ count) × All Buried es)
    ⊎ ((count < p.max_delivery_attempts) × Retried (backoff_ms p count) run es)
