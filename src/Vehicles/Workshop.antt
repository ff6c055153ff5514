-- ===== src/Vehicles/Workshop.antt =====
-- `advance_one_due_maintenance` and `record_inspection` of
-- backend/app/vehicle_operations/sqlalchemy_repository.py.
pub mod Keeps
pub mod Tests
pub mod Nearer
use model_lib.Base.{
  ℕ, ◌+◌, ◌*◌, String, Bool, true, false, not, ◌&&◌, ◌||◌, Option, none, some, List, [], ◌∷◌, ltb,
  leb, if◌then◌else◌,
}
use model_lib.Base.Eq.{◌==◌, nat_eq, string_eq, option_eq}
use Prim.Native.String.{◌++◌ as append}
use model_lib.Vehicles.Status.{
  VehicleOperationalStatus, RescueStatus, MaintenanceStatus, rescue_transition,
  maintenance_transition, dispatched, arrived, loaded, delivered, scheduled, waiting_bay,
  diagnosing, repairing, completed, broken, waiting_rescue, dispatching, in_transit, in_rescue,
  maintenance, available, out_of_service,
}
use model_lib.Vehicles.Tables.{
  FleetVehicle, RescueUnit, MaintenanceBay, RescueMission, MaintenanceOrder, DomainOutbox, Payload,
  stopped_vehicle, mission_number, order_number, replacement, rescue_status, maintenance_status,
  vehicle_status, attempts, inspection, Database, operation_not_found, operations_conflict,
  invalid_state_transition, integrity_error, key_error, Run, pure, raise, read, or_raise, write,
  ◌>>=◌, ◌>>◌, require, find, change, change_vehicle, change_unit, change_bay, change_mission,
  change_order, add_event, vehicle_for_update, transition_vehicle,
}
use model_lib.Vehicles.Cases.{
  OperationCaseSnapshot, mission_of, order_of, is_replacement_of, replacement_event, case_of,
  case_of_task,
}
use model_lib.Vehicles.Due.{is_due, time_of, first_due}

maintenance_is_active : MaintenanceStatus → Bool
maintenance_is_active waiting_bay = true
maintenance_is_active diagnosing = true
maintenance_is_active repairing = true
maintenance_is_active MaintenanceStatus.qa_pending = true
maintenance_is_active _ = false

due_order : ℕ → Database → Option MaintenanceOrder
due_order now db =
    first_due
      (λ (o : MaintenanceOrder). maintenance_is_active o.status && is_due o.next_transition_at now)
      (λ o. time_of o.next_transition_at) (λ o. o.id) db.orders

-- `_release_vehicle_and_bay`
pub release_bay : Option String → Run (Unit {0})
release_bay none = pure tt
release_bay (some code) =
    change_bay code (λ b. record b { status = "AVAILABLE"; current_order_no = none })

pub release_vehicle_and_bay : MaintenanceOrder → Bool → ℕ → Run (Unit {0})
release_vehicle_and_bay o true now = do
  transition_vehicle o.vehicle_id available "安全质检通过，自动恢复可调度" o.task_id now
  change_vehicle o.vehicle_id (λ v. record v {
    fault_code = none;
    status_reason = some "安全质检通过，车辆已恢复可调度";
    available_after = none;
    maintenance_order_no = none;
  })
  release_bay o.bay_code
  add_event o.task_id "vehicle" o.vehicle_id "VEHICLE_AVAILABLE" (vehicle_status available)
release_vehicle_and_bay o false now = do
  transition_vehicle o.vehicle_id out_of_service "安全质检未通过，停止运营" o.task_id now
  release_bay o.bay_code
  add_event o.task_id "vehicle" o.vehicle_id "VEHICLE_OUT_OF_SERVICE"
      (vehicle_status out_of_service)

-- The new status of an order, with its times and its event.
step_order :
    MaintenanceOrder
    → MaintenanceStatus
    → String
    → (MaintenanceOrder → MaintenanceOrder)
    → Run (Unit {0})
step_order o target event_type times = do
  require (maintenance_transition o.status target) invalid_state_transition
  change_order o.task_id (λ row. times (record row { status = target }))
  add_event o.task_id "maintenance" o.order_no event_type (maintenance_status target)

pub pass_inspection : MaintenanceOrder → MaintenanceOrder
pass_inspection o = record o { inspection_result = some "PASSED" }

is_missing : Option String → Bool
is_missing none = true
is_missing (some r) = false

awaits_inspection : MaintenanceOrder → Bool
awaits_inspection o = o.manual_inspection_required && is_missing o.inspection_result

advance_order : ℕ → MaintenanceOrder → MaintenanceStatus → Run (Unit {0})
advance_order now o waiting_bay = do
  step_order o diagnosing "MAINTENANCE_DIAGNOSING"
      (λ row. record row { next_transition_at = some (now + 5) })
  vehicle_for_update o.vehicle_id
  pure tt
advance_order now o diagnosing = do
  step_order o repairing "MAINTENANCE_REPAIRING" (λ row. record row {
    next_transition_at = some (now + 60 * row.repair_minutes);
    available_after = some (now + 60 * row.repair_minutes + 6);
  })
  vehicle_for_update o.vehicle_id
  change_vehicle o.vehicle_id
      (λ v. record v { available_after = some (now + 60 * o.repair_minutes + 6) })
advance_order now o repairing = do
  step_order o MaintenanceStatus.qa_pending "MAINTENANCE_QA_PENDING"
      (λ row. record row { next_transition_at = some (now + 6) })
  transition_vehicle o.vehicle_id VehicleOperationalStatus.qa_pending "维修完成，进入安全质检" o.task_id now
advance_order now o MaintenanceStatus.qa_pending = do
  step_order o completed "MAINTENANCE_COMPLETED" (λ row. record row { next_transition_at = none })
  vehicle_for_update o.vehicle_id
  change_order o.task_id pass_inspection
  release_vehicle_and_bay o true now
advance_order now o _ = raise key_error

in_qa : MaintenanceStatus → Bool
in_qa MaintenanceStatus.qa_pending = true
in_qa _ = false

-- An order that waits for an inspector is no longer due.
advance_or_wait : ℕ → MaintenanceOrder → Run (Unit {0})
advance_or_wait now o =
    if in_qa o.status && awaits_inspection o
    then change_order o.task_id (λ row. record row { next_transition_at = none })
    else advance_order now o o.status

advance_maintenance : ℕ → Option MaintenanceOrder → Run (Option OperationCaseSnapshot)
advance_maintenance now none = pure none
advance_maintenance now (some o) = do
  advance_or_wait now o
  c ← case_of_task o.task_id
  pure (some c)

pub advance_one_due_maintenance : ℕ → Run (Option OperationCaseSnapshot)
advance_one_due_maintenance now = read (due_order now) >>= advance_maintenance now

outcome_of : Bool → MaintenanceStatus
outcome_of true = completed
outcome_of false = MaintenanceStatus.failed

result_of : Bool → String
result_of true = "PASSED"
result_of false = "FAILED"

pub record_inspection : String → Bool → ℕ → String → Run OperationCaseSnapshot
record_inspection order_no passed decided_at decided_by = do
  o ←
      read (λ db. find (λ (o : MaintenanceOrder). o.order_no == order_no) db.orders)
      >>= or_raise operation_not_found
  require (in_qa o.status) invalid_state_transition
  require (maintenance_transition o.status (outcome_of passed)) invalid_state_transition
  change_order o.task_id (λ row. record row {
    status = outcome_of passed;
    inspection_result = some (result_of passed);
    next_transition_at = none;
  })
  vehicle_for_update o.vehicle_id
  release_vehicle_and_bay o passed decided_at
  add_event o.task_id "maintenance" o.order_no "INSPECTION_DECIDED" (inspection passed decided_by)
  case_of_task o.task_id
