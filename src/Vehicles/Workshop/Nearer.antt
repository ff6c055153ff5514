-- ===== src/Vehicles/Workshop/Nearer.antt =====
-- Each advance of a maintenance order leaves less work.
use model_lib.Base.{
  ℕ, ◌<◌, String, ◌≡◌, refl, true, none, some, ◌&&◌, arith, Option-cases, Bool-cases, inl, inr,
}
use model_lib.Base.Eq.{string_eq}
use model_lib.Vehicles.Status.{
  MaintenanceStatus, maintenance_transition, waiting_bay, diagnosing, repairing, qa_pending,
  completed,
}
use model_lib.Vehicles.Tables.{
  MaintenanceOrder, Database, find, change_order, invalid_state_transition,
}
use model_lib.Vehicles.Tables.Keeps.{
  After, After-require, Keeps, go_on-After, keeps_rules, vehicle_for_update-Keeps,
}
use model_lib.Vehicles.Tables.Keyed.{has_key, Unique, total-change_same}
use model_lib.Vehicles.Cases.{is_case}
use model_lib.Vehicles.Cases.Reads.{case_of_task-Keeps}
use model_lib.Vehicles.Due.{is_due}
use model_lib.Vehicles.Due.Found.{first_due-find}
use model_lib.Vehicles.Work.{
  order_work, work, Under, Under-Aside, Spends, Under-Spends, change_order-Under,
}
use model_lib.Vehicles.Workshop.Keeps.{release_vehicle_and_bay-Keeps}
use model_lib.Vehicles.Workshop.{
  step_order, pass_inspection, advance_order, advance_or_wait, advance_maintenance, in_qa,
  awaits_inspection, due_order, advance_one_due_maintenance,
}

-- The order that is due, as the table has it.
record Due (now : ℕ) (db : Database) (o : MaintenanceOrder) : Type 0 where
  found : find (has_key (λ (r : MaintenanceOrder). r.task_id) o.task_id) db.orders ≡ some o
  due : is_due o.next_transition_at now ≡ true

module _ {bound : ℕ} where
  pass_inspection-Under :
      (task_id : String) → Keeps (Under bound) (change_order task_id pass_inspection)
  unfolding change_order pass_inspection work order_work
  pass_inspection-Under task_id = record {
    at = λ db u. record {
      below = omega (
        arith,
        u.below,
        total-change_same order_work (has_key (λ r. r.task_id) task_id) pass_inspection (λ o. refl)
            db.orders,
      );
    };
  }

module _ (o : MaintenanceOrder) (target : MaintenanceStatus) (event_type : String) where
  step_order-Under :
      (times : MaintenanceOrder → MaintenanceOrder) (db : Database)
      → find (has_key (λ (r : MaintenanceOrder). r.task_id) o.task_id) db.orders ≡ some o
      → order_work (times (record o { status = target })) < order_work o
      → After (Under (work db)) (step_order o target event_type times db)
  unfolding step_order
  step_order-Under times db found less =
      After-require (Under (work db)) (maintenance_transition o.status target)
        invalid_state_transition _ db
        (λ allowed.
          go_on-After (change_order o.task_id _ db) _ (change_order-Under _ o db found less)
            (λ _. Under-Aside.event o.task_id "maintenance" o.order_no event_type _))

module _ (now : ℕ) (o : MaintenanceOrder) (db : Database) (d : Due now db o) where
  advance_order-Under :
      (s : MaintenanceStatus) → o.status ≡ s → After (Under (work db)) (advance_order now o s db)
  unfolding advance_order order_work is_due
  advance_order-Under waiting_bay e =
      go_on-After (step_order o diagnosing _ _ db) _
        (step_order-Under o _ _ _ db d.found (ground (arith, e)))
        (λ _. search (keeps_rules, vehicle_for_update-Keeps))
  advance_order-Under diagnosing e =
      go_on-After (step_order o repairing _ _ db) _
        (step_order-Under o _ _ _ db d.found (ground (arith, e)))
        (λ _. search (keeps_rules, vehicle_for_update-Keeps, Under-Aside.vehicle))
  advance_order-Under repairing e =
      go_on-After (step_order o qa_pending _ _ db) _
        (step_order-Under o _ _ _ db d.found (ground (arith, e))) (λ _. Under-Aside.moved _ _ _ _ _)
  advance_order-Under qa_pending e =
      go_on-After (step_order o completed _ _ db) _
        (step_order-Under o _ _ _ db d.found (ground (arith, e, d.due)))
        (λ _.
          search
            (
              keeps_rules,
              vehicle_for_update-Keeps,
              pass_inspection-Under,
              release_vehicle_and_bay-Keeps Under-Aside,
            )
            depth 12)
  advance_order-Under _ e = tt

  -- An order that waits for its inspector has one step left, and has no next time.
  wait-less :
      (in_qa o.status && awaits_inspection o) ≡ true
      → order_work (record o { next_transition_at = none }) < order_work o
  unfolding in_qa awaits_inspection order_work is_due
  wait-less waits = ground (arith, d.due)

  advance_or_wait-Under : After (Under (work db)) (advance_or_wait now o db)
  unfolding advance_or_wait
  advance_or_wait-Under = elim (Bool-cases (in_qa o.status && awaits_inspection o)) [
    | inl e ↦ rw e (change_order-Under _ o db d.found (wait-less e))
    | inr e ↦ rw e (advance_order-Under o.status refl)
  ]

pub advance_one_due_maintenance-Spends :
    (now : ℕ) (db : Database)
    → Unique (λ (r : MaintenanceOrder). r.task_id) db.orders
    → Spends db (advance_one_due_maintenance now db)
unfolding advance_one_due_maintenance due_order advance_maintenance Spends is_case
advance_one_due_maintenance-Spends now db u = elim (Option-cases (due_order now db)) [
  | inl e ↦ rw e (omega arith)
  | inr (o, e) ↦
      let (found, due) =
        first_due-find _ _ _ (λ (r : MaintenanceOrder). r.task_id) o db.orders u e in
      rw e (
        Under-Spends db _ (
          go_on-After (advance_or_wait now o db) _
            (advance_or_wait-Under now o db (record { found = found; due = ground (arith, due) }))
            (λ _. search (keeps_rules, case_of_task-Keeps))))
]
