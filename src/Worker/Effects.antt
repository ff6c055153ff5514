-- ===== src/Worker/Effects.antt =====
-- What the worker does to its collaborators, in order, and what they answer. A call returns or
-- raises; the effects of a procedure are listed also when it raises. Cancellation of the task and
-- the lock's renewal in the background are not among the effects.
use model_lib.Base.{ℕ, String, Option, none, some, List, [], ◌∷◌, ◌++◌}

pub data Outcome {ℓ} (A : Type ℓ) : Type ℓ where
  returns : A → Outcome A
  raises : Outcome A

pub data IdempotencyState : Type 0 where
  new in_progress terminal : IdempotencyState

pub data TaskEventType : Type 0 where
  worker_started task_failed task_completed task_review_required : TaskEventType

-- A call that raised is listed as `failed`.
pub data Effect : Type 0 where
  lock_requested lock_released reconciled_execution marked_processing : Effect
  read_thread reconciled_thread claimed_node runner_set_up graph_ran : Effect
  thread_terminal_published dispatch_published breakdown_handled acknowledged : Effect
  dead_lettered : Effect
  began : IdempotencyState → Effect
  ledger_terminal thread_terminal : String → Effect
  event_published : TaskEventType → Effect
  begin_raised : Effect
  slept : ℕ → Effect
  failed : Effect → Effect

abbrev pub Exec {ℓ} : Type ℓ → Type ℓ
Exec A = Outcome A × List Effect

module _ {ℓ} {A : Type ℓ} where
  abbrev pub pure : A → Exec A
  pure a = (returns a, [])

  -- A call whose effect is known beforehand.
  abbrev pub call : Effect → Outcome A → Exec A
  call e (returns a) = (returns a, e ∷ [])
  call e raises = (raises, failed e ∷ [])

  -- A call whose effect shows what it returned.
  abbrev pub call_with : (A → Effect) → Outcome A → Exec A
  call_with e (returns a) = (returns a, e a ∷ [])
  call_with e raises = (raises, failed begin_raised ∷ [])

  -- `try: ... except Exception`: `none` where the body raised.
  abbrev pub attempt : Exec A → Exec (Option A)
  attempt (returns a, es) = (returns (some a), es)
  attempt (raises, es) = (returns none, es)

  abbrev finished {κ} : {B : Type κ} → Outcome A → Outcome B → Outcome A
  finished r (returns b) = r
  finished r raises = raises

  -- `try: ... finally`
  abbrev pub ensuring {κ} : {B : Type κ} → Exec A → Exec B → Exec A
  ensuring (r, es) (q, ds) = (finished r q, es ++ ds)

  abbrev pub prefixed : List Effect → Exec A → Exec A
  prefixed es (r, ds) = (r, es ++ ds)

module _ {ℓ κ} {A : Type ℓ} {B : Type κ} where
  infixl 5 ◌>>=◌ ◌>>◌
  abbrev pub ◌>>=◌ : Exec A → (A → Exec B) → Exec B
  (returns a, es) >>= f = prefixed es (f a)
  (raises, es) >>= f = (raises, es)

  abbrev pub ◌>>◌ : Exec A → Exec B → Exec B
  m >> k = m >>= λ _. k
