-- ===== src/Vehicles/Progress/Bound.antt =====
-- The loop of backend/app/vehicle_operations/progressor.py advances cases in a bounded number of rounds.
use model_lib.Base.{ℕ, ◌+◌, ◌≤◌, Bool, List, [], ◌∷◌, Option, if◌then◌else◌, arith}
use model_lib.Vehicles.Tables.{
  RescueMission, MaintenanceOrder, Database, Outcome, returned, raised, change_mission,
  change_order,
}
use model_lib.Vehicles.Tables.Keeps.{After, Keeps-write, Throughout}
use model_lib.Vehicles.Tables.Keyed.{Unique, change-Unique}
use model_lib.Vehicles.Tables.Aside.{Aside-of}
use model_lib.Vehicles.Cases.{OperationCaseSnapshot, is_case}
use model_lib.Vehicles.Work.{work, Spends}
use model_lib.Vehicles.Rescue.{advance_one_due_rescue}
use model_lib.Vehicles.Rescue.Keeps.{advance_one_due_rescue-Keeps}
use model_lib.Vehicles.Rescue.Nearer.{advance_one_due_rescue-Spends}
use model_lib.Vehicles.Workshop.{advance_one_due_maintenance}
use model_lib.Vehicles.Workshop.Keeps.{advance_one_due_maintenance-Keeps}
use model_lib.Vehicles.Workshop.Nearer.{advance_one_due_maintenance-Spends}
use model_lib.Vehicles.Progress.{
  Round, went_on, stopped, after_maintenance, after_rescue, run_once, busy_rounds,
}

-- A task has one mission and one order, as the constraints of the two tables say.
pub record OnePerTask (db : Database) : Type 0 where
  pub missions_differ : Unique (λ (m : RescueMission). m.task_id) db.missions
  pub orders_differ : Unique (λ (o : MaintenanceOrder). o.task_id) db.orders

OnePerTask-Throughout : Throughout OnePerTask
unfolding change_mission change_order
OnePerTask-Throughout = record {
  aside = Aside-of (λ db vs us bs hs es u. record {
    missions_differ = u.missions_differ;
    orders_differ = u.orders_differ;
  });
  mission = λ id f h. Keeps-write _ (λ db u. record {
    missions_differ =
        change-Unique (λ (m : RescueMission). m.task_id) _ f h db.missions u.missions_differ;
    orders_differ = u.orders_differ;
  });
  order = λ id f h. Keeps-write _ (λ db u. record {
    missions_differ = u.missions_differ;
    orders_differ =
        change-Unique (λ (o : MaintenanceOrder). o.task_id) _ f h db.orders u.orders_differ;
  });
}

-- What a round leaves: one mission and one order per task, and less work when it advanced a case.
Leaves : Database → Round → Type 0
Leaves db (went_on busy after) = OnePerTask after × ((if busy then 1 else 0) + work after ≤ work db)
Leaves db (stopped e after) = Unit

after_maintenance-Leaves :
    (db mid : Database) (busy : Bool) (o : Outcome (Option OperationCaseSnapshot))
    → (if busy then 1 else 0) + work mid ≤ work db
    → After OnePerTask o
    → Spends mid o
    → Leaves db (after_maintenance mid busy o)
unfolding after_maintenance Leaves Spends
after_maintenance-Leaves db mid busy (returned c after) h u s = (u, ground (arith, h, s))
after_maintenance-Leaves db mid busy (raised e) h u s = tt

after_rescue-Leaves :
    (now : ℕ) (db : Database) (o : Outcome (Option OperationCaseSnapshot))
    → After OnePerTask o
    → Spends db o
    → Leaves db (after_rescue now db o)
unfolding after_rescue Leaves Spends
after_rescue-Leaves now db (returned c mid) u s =
    after_maintenance-Leaves db mid (is_case c) (advance_one_due_maintenance now mid) s
      ((advance_one_due_maintenance-Keeps OnePerTask-Throughout now).at mid u)
      (advance_one_due_maintenance-Spends now mid u.orders_differ)
after_rescue-Leaves now db (raised e) u s = tt

run_once-Leaves : (now : ℕ) (db : Database) → OnePerTask db → Leaves db (run_once now db)
unfolding run_once
run_once-Leaves now db u =
    after_rescue-Leaves now db (advance_one_due_rescue now db)
      ((advance_one_due_rescue-Keeps OnePerTask-Throughout now).at db u)
      (advance_one_due_rescue-Spends now db u.missions_differ)

-- When a task has one mission and one order, the loop advances a case in at most as many of its rounds
-- as the cases have steps left at its start, whatever times it reads.
pub busy_rounds-bound :
    (times : List ℕ) (db : Database) → OnePerTask db → busy_rounds times db ≤ work db
unfolding busy_rounds Leaves
busy_rounds-bound [] db u = ground arith
busy_rounds-bound (now ∷ later) db u =
    go (run_once now db) (run_once-Leaves now db u) (λ after u. busy_rounds-bound later after u)
  where
    go :
        (r : Round)
        → Leaves db r
        → ((after : Database) → OnePerTask after → busy_rounds later after ≤ work after)
        → (elim r [
          | went_on busy after ↦ (if busy then 1 else 0) + busy_rounds later after
          | stopped e after ↦ 0
        ])
          ≤ work db
    go (went_on busy after) (u, h) rest = omega (arith, h, rest after u)
    go (stopped e after) h rest = omega arith
