-- ===== src/Vehicles/Workshop/Keeps.antt =====
-- What the steps of the maintenance keep.
use model_lib.Base.{◌≡◌, ℕ, String, Bool, true, false, Option, none, some}
use model_lib.Vehicles.Status.{MaintenanceStatus, waiting_bay, diagnosing, repairing, qa_pending}
use model_lib.Vehicles.Tables.{Database, MaintenanceOrder}
use model_lib.Vehicles.Tables.Keeps.{
  Keeps, Keeps-raise, keeps_rules, Aside, Throughout, vehicle_for_update-Keeps,
}
use model_lib.Vehicles.Cases.Reads.{case_of_task-Keeps}
use model_lib.Vehicles.Workshop.{
  release_bay, release_vehicle_and_bay, step_order, advance_order, advance_or_wait,
  advance_maintenance, advance_one_due_maintenance, pass_inspection, record_inspection,
}

module _ {P : Database → Type 0} (a : Aside P) where
  pub release_bay-Keeps : (code : Option String) → Keeps P (release_bay code)
  unfolding release_bay
  release_bay-Keeps none = search keeps_rules
  release_bay-Keeps (some code) = search (keeps_rules, a.bay)

  pub release_vehicle_and_bay-Keeps :
      (o : MaintenanceOrder) (passed : Bool) (now : ℕ)
      → Keeps P (release_vehicle_and_bay o passed now)
  unfolding release_vehicle_and_bay
  release_vehicle_and_bay-Keeps o true now =
      search (keeps_rules, a.moved, a.vehicle, release_bay-Keeps, a.event) depth 16
  release_vehicle_and_bay-Keeps o false now =
      search (keeps_rules, a.moved, release_bay-Keeps, a.event) depth 16

module _ {P : Database → Type 0} (t : Throughout P) where
  step_order-Keeps :
      (o : MaintenanceOrder) (target : MaintenanceStatus) (event_type : String)
      (times : MaintenanceOrder → MaintenanceOrder)
      → ((row : MaintenanceOrder) → (times row).task_id ≡ row.task_id)
      → Keeps P (step_order o target event_type times)
  unfolding step_order
  step_order-Keeps o target event_type times h = search (keeps_rules, t.order, t.aside.event, h)

  advance_order-Keeps :
      (now : ℕ) (o : MaintenanceOrder) (s : MaintenanceStatus) → Keeps P (advance_order now o s)
  unfolding advance_order pass_inspection
  advance_order-Keeps now o waiting_bay =
      search (keeps_rules, step_order-Keeps, vehicle_for_update-Keeps) depth 16
  advance_order-Keeps now o diagnosing =
      search (keeps_rules, step_order-Keeps, vehicle_for_update-Keeps, t.aside.vehicle) depth 16
  advance_order-Keeps now o repairing =
      search (keeps_rules, step_order-Keeps, t.aside.moved) depth 16
  advance_order-Keeps now o qa_pending =
      search
        (
          keeps_rules,
          step_order-Keeps,
          vehicle_for_update-Keeps,
          t.order,
          release_vehicle_and_bay-Keeps t.aside,
        )
        depth 16
  advance_order-Keeps now o _ = Keeps-raise _

  advance_or_wait-Keeps : (now : ℕ) (o : MaintenanceOrder) → Keeps P (advance_or_wait now o)
  unfolding advance_or_wait
  advance_or_wait-Keeps now o = search (keeps_rules, t.order, advance_order-Keeps)

  advance_maintenance-Keeps :
      (now : ℕ) (o : Option MaintenanceOrder) → Keeps P (advance_maintenance now o)
  unfolding advance_maintenance
  advance_maintenance-Keeps now none = search keeps_rules
  advance_maintenance-Keeps now (some o) =
      search (keeps_rules, advance_or_wait-Keeps, case_of_task-Keeps)

  pub advance_one_due_maintenance-Keeps : (now : ℕ) → Keeps P (advance_one_due_maintenance now)
  unfolding advance_one_due_maintenance
  advance_one_due_maintenance-Keeps now = search (keeps_rules, advance_maintenance-Keeps)

  pub record_inspection-Keeps :
      (order_no : String) (passed : Bool) (decided_at : ℕ) (decided_by : String)
      → Keeps P (record_inspection order_no passed decided_at decided_by)
  unfolding record_inspection
  record_inspection-Keeps order_no passed decided_at decided_by =
      search
        (
          keeps_rules,
          t.order,
          vehicle_for_update-Keeps,
          release_vehicle_and_bay-Keeps t.aside,
          t.aside.event,
          case_of_task-Keeps,
        )
        depth 24
