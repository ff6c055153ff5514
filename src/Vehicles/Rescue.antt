-- ===== src/Vehicles/Rescue.antt =====
-- `advance_one_due_rescue` and `retry_rescue` of
-- backend/app/vehicle_operations/sqlalchemy_repository.py.
pub mod Keeps
pub mod Nearer
use model_lib.Base.{
  ℕ, ◌+◌, ◌*◌, String, Bool, true, false, not, ◌&&◌, ◌||◌, Option, none, some, List, [], ◌∷◌, ltb,
  leb, if◌then◌else◌,
}
use model_lib.Base.Eq.{◌==◌, nat_eq, string_eq, option_eq}
use Prim.Native.String.{◌++◌ as append}
use model_lib.Vehicles.Status.{
  VehicleOperationalStatus, RescueStatus, MaintenanceStatus, rescue_transition,
  maintenance_transition, dispatched, arrived, loaded, delivered, scheduled, waiting_bay,
  diagnosing, repairing, completed, broken, waiting_rescue, dispatching, in_transit, in_rescue,
  maintenance, available, out_of_service,
}
use model_lib.Vehicles.Tables.{
  FleetVehicle, RescueUnit, MaintenanceBay, RescueMission, MaintenanceOrder, DomainOutbox, Payload,
  stopped_vehicle, mission_number, order_number, replacement, rescue_status, maintenance_status,
  vehicle_status, attempts, inspection, Database, operation_not_found, operations_conflict,
  invalid_state_transition, integrity_error, key_error, Run, pure, raise, read, or_raise, write,
  ◌>>=◌, ◌>>◌, require, find, change, change_vehicle, change_unit, change_bay, change_mission,
  change_order, add_event, vehicle_for_update, transition_vehicle,
}
use model_lib.Vehicles.Cases.{
  OperationCaseSnapshot, mission_of, order_of, is_replacement_of, replacement_event, case_of,
  case_of_task,
}
use model_lib.Vehicles.Opening.{unit_of, unit_is_available}
use model_lib.Vehicles.Due.{is_due, time_of, first_due}

rescue_is_active : RescueStatus → Bool
rescue_is_active dispatched = true
rescue_is_active arrived = true
rescue_is_active loaded = true
rescue_is_active _ = false

due_mission : ℕ → Database → Option RescueMission
due_mission now db =
    first_due (λ (m : RescueMission). rescue_is_active m.status && is_due m.next_transition_at now)
      (λ m. time_of m.next_transition_at) (λ m. m.id) db.missions

-- `MaintenanceOrder` of the task that a rescue has delivered to the station.
queue_order : RescueMission → ℕ → Option MaintenanceOrder → Run (Unit {0})
queue_order m now none = pure tt
queue_order m now (some o) = do
  require (maintenance_transition o.status waiting_bay) invalid_state_transition
  change_order m.task_id
      (λ o. record o { status = waiting_bay; next_transition_at = some (now + 1) })

-- The new status of a mission, with its next time and its event.
step_mission : RescueMission → RescueStatus → Option ℕ → String → Run (Unit {0})
step_mission m target next event_type = do
  require (rescue_transition m.status target) invalid_state_transition
  change_mission m.task_id (λ m. record m {
    status = target;
    attempt_count = m.attempt_count + 1;
    next_transition_at = next;
  })
  add_event m.task_id "rescue" m.mission_no event_type (rescue_status target)

deliver : RescueMission → ℕ → Run (Unit {0})
deliver m now = do
  transition_vehicle m.vehicle_id maintenance "车辆已送达县域维修站" m.task_id now
  change_vehicle m.vehicle_id (λ v. record v { current_node_id = m.station_node_id })
  change_unit m.rescue_unit_id
      (λ u. record u { status = "AVAILABLE"; current_node_id = m.station_node_id })
  read (order_of m.task_id) >>= queue_order m now

advance_mission : ℕ → RescueMission → RescueStatus → Run (Unit {0})
advance_mission now m dispatched = step_mission m arrived (some (now + 6)) "RESCUE_ARRIVED"
advance_mission now m arrived = do
  step_mission m loaded (some (now + 4)) "VEHICLE_LOADED"
  transition_vehicle m.vehicle_id in_rescue "故障车辆已装载拖运" m.task_id now
advance_mission now m loaded = do step_mission m delivered none "TOW_DELIVERED"; deliver m now
advance_mission now m _ = raise key_error

advance_rescue : ℕ → Option RescueMission → Run (Option OperationCaseSnapshot)
advance_rescue now none = pure none
advance_rescue now (some m) = do
  advance_mission now m m.status
  c ← case_of_task m.task_id
  pure (some c)

pub advance_one_due_rescue : ℕ → Run (Option OperationCaseSnapshot)
advance_one_due_rescue now = read (due_mission now) >>= advance_rescue now

start_again : RescueMission → ℕ → Option RescueUnit → Run OperationCaseSnapshot
start_again m now unit = do
  require (unit_is_available unit) operations_conflict
  change_mission m.task_id (λ m. record m {
    status = dispatched;
    next_transition_at = some (now + 8);
    failure_reason = none;
    attempt_count = m.attempt_count + 1;
  })
  change_unit m.rescue_unit_id (λ u. record u { status = "DISPATCHED" })
  add_event m.task_id "rescue" m.mission_no "RESCUE_RETRIED" (attempts (m.attempt_count + 1))
  case_of_task m.task_id

has_failed : RescueStatus → Bool
has_failed RescueStatus.failed = true
has_failed _ = false

pub retry_rescue : String → ℕ → Run OperationCaseSnapshot
retry_rescue mission_no now = do
  m ←
      read (λ db. find (λ (m : RescueMission). m.mission_no == mission_no) db.missions)
      >>= or_raise operation_not_found
  require (has_failed m.status) invalid_state_transition
  unit ← read (unit_of m.rescue_unit_id)
  start_again m now unit
