-- ===== src/Idempotency/Ledger/Tests.antt =====
-- Sessions on concrete tables.
use model_lib.Base.{◌≡◌, refl, inr, false, true, none, some, [], ◌∷◌}
use model_lib.Idempotency.Ledger.{
  Database, begin, mark_terminal, begin_from, existing, consistent, key_differs, find, task_differs,
  first_of, insert, new_task, anomaly_missing, task_breaks, any, thread_breaks, event_breaks,
}
use model_lib.Idempotency.Ledger.Runs.{Reach, here, further, began, empty}
use model_lib.Idempotency.Ledger.Unique.{IsWellFormed, Reach-IsWellFormed}
use model_lib.Idempotency.Ledger.Once.{is_new, begin-new_once, known, begin-replayed}

abbrev fresh : Database
fresh = empty (7 ∷ []) (3 ∷ [])

abbrev first : Database
first = (begin fresh fresh "task-1" 7 "key-1" (some 3) none).0

abbrev second : Database
second = (begin fresh first "task-2" 7 "key-2" none none).0

abbrev history : Reach (empty (7 ∷ []) (3 ∷ [])) second
history =
    further (further here (began fresh fresh "task-1" 7 "key-1" (some 3) none))
      (began fresh first "task-2" 7 "key-2" none none)

first_is_new : is_new (begin fresh fresh "task-1" 7 "key-1" (some 3) none).1 ≡ true
unfolding begin begin_from existing consistent key_differs find task_differs first_of insert
    new_task anomaly_missing task_breaks any thread_breaks event_breaks
first_is_new = refl

Reach-IsWellFormed_example : IsWellFormed second
Reach-IsWellFormed_example = Reach-IsWellFormed (7 ∷ []) (3 ∷ []) second history

begin-new_once_example :
    is_new (begin fresh second "task-3" 7 "key-1" none (some "user-1")).1 ≡ false
begin-new_once_example =
    begin-new_once fresh fresh "task-1" 7 "key-1" (some 3) none first_is_new second
      (further here (began fresh first "task-2" 7 "key-2" none none)) fresh "task-3" 7 "key-1" none
      (some "user-1") (inr refl)

begin-replayed_example :
    (begin first first "task-1" 7 "key-1" (some 3) none ≡ (first, known "task-1" "key-1" "PENDING"))
    × (begin
          (mark_terminal first "task-1" "APPROVED" 5).0
          (mark_terminal first "task-1" "APPROVED" 5).0
          "task-1"
          7
          "key-1"
          (some 3)
          none
        ≡ ((mark_terminal first "task-1" "APPROVED" 5).0, known "task-1" "key-1" "APPROVED"))
begin-replayed_example =
    begin-replayed fresh fresh "task-1" 7 "key-1" (some 3) none "APPROVED" 5 first_is_new
