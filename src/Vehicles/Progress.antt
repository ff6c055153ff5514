-- ===== src/Vehicles/Progress.antt =====
-- backend/app/vehicle_operations/progressor.py: the loop that advances the cases. A run of it is the
-- list of the times that it reads; its pauses and its stop signal are left out.
pub mod Bound
use model_lib.Base.{
  ℕ, ◌+◌, Bool, true, false, ◌||◌, Option, none, some, List, [], ◌∷◌, if◌then◌else◌,
}
use model_lib.Vehicles.Tables.{Database, OperationError, Outcome, returned, raised}
use model_lib.Vehicles.Cases.{OperationCaseSnapshot, is_case}
use model_lib.Vehicles.Rescue.{advance_one_due_rescue}
use model_lib.Vehicles.Workshop.{advance_one_due_maintenance}

-- A round that went on says whether it advanced a case. A call that raises ends the loop, after the
-- transactions before it.
pub data Round : Type 0 where
  went_on : Bool → Database → Round
  stopped : OperationError → Database → Round

after_maintenance : Database → Bool → Outcome (Option OperationCaseSnapshot) → Round
after_maintenance db busy (returned c after) = went_on (busy || is_case c) after
after_maintenance db busy (raised e) = stopped e db

after_rescue : ℕ → Database → Outcome (Option OperationCaseSnapshot) → Round
after_rescue now db (returned c after) =
    after_maintenance after (is_case c) (advance_one_due_maintenance now after)
after_rescue now db (raised e) = stopped e db

-- `run_once`
pub run_once : ℕ → Database → Round
run_once now db = after_rescue now db (advance_one_due_rescue now db)

-- `run_forever`: how many of its rounds advance a case
pub busy_rounds : List ℕ → Database → ℕ
busy_rounds [] db = 0
busy_rounds (now ∷ later) db = elim (run_once now db) [
  | went_on busy after ↦ (if busy then 1 else 0) + busy_rounds later after
  | stopped e after ↦ 0
]
