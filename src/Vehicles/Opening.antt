-- ===== src/Vehicles/Opening.antt =====
-- `create_breakdown_case` and `update_replacement_route` of
-- backend/app/vehicle_operations/sqlalchemy_repository.py. The bays stand in the order of their codes.
-- The numbers of a mission and an order, which hold the date and the suffix that `_suffix` takes from
-- the task's id, are parameters.
pub mod Keeps
pub mod Tests
use model_lib.Base.{
  ℕ, ◌+◌, ◌*◌, String, Bool, true, false, not, ◌&&◌, ◌||◌, Option, none, some, List, [], ◌∷◌, ltb,
  leb, if◌then◌else◌,
}
use model_lib.Base.Eq.{◌==◌, nat_eq, string_eq, option_eq}
use Prim.Native.String.{◌++◌ as append}
use model_lib.Vehicles.Status.{
  VehicleOperationalStatus, RescueStatus, MaintenanceStatus, rescue_transition,
  maintenance_transition, dispatched, arrived, loaded, delivered, scheduled, waiting_bay,
  diagnosing, repairing, completed, broken, waiting_rescue, dispatching, in_transit, in_rescue,
  maintenance, available, out_of_service,
}
use model_lib.Vehicles.Tables.{
  FleetVehicle, RescueUnit, MaintenanceBay, RescueMission, MaintenanceOrder, DomainOutbox, Payload,
  stopped_vehicle, mission_number, order_number, replacement, rescue_status, maintenance_status,
  vehicle_status, attempts, inspection, Database, operation_not_found, operations_conflict,
  invalid_state_transition, integrity_error, key_error, Run, pure, raise, read, or_raise, write,
  ◌>>=◌, ◌>>◌, require, find, change, change_vehicle, change_unit, change_bay, change_mission,
  change_order, add_event, vehicle_for_update, transition_vehicle,
}
use model_lib.Vehicles.Cases.{
  OperationCaseSnapshot, mission_of, order_of, is_replacement_of, replacement_event, case_of,
  case_of_task,
}

pub record BreakdownCaseRequest : Type 0 where
  pub task_id : String
  pub vehicle_id : String
  pub replacement_vehicle_id : Option String
  pub rescue_unit_id : String
  pub incident_node_id : String
  pub station_node_id : String
  pub outbound_edge_ids : List String
  pub tow_edge_ids : List String
  pub fault_code : String
  pub diagnosis : String
  pub repair_minutes : ℕ
  pub manual_inspection_required : Bool
  pub occurred_at : ℕ
  pub replacement_edge_ids : List String

pub unit_of : String → Database → Option RescueUnit
unit_of id db = find (λ (u : RescueUnit). u.unit_id == id) db.units

pub unit_is_available : Option RescueUnit → Bool
unit_is_available none = false
unit_is_available (some u) = u.status == "AVAILABLE"

free_bay : Database → Option MaintenanceBay
free_bay db = find (λ (b : MaintenanceBay). b.status == "AVAILABLE") db.bays

any_number {ℓ} : {A : Type ℓ} → Option A → Bool
any_number none = false
any_number (some a) = true

-- The constraints of the two tables on a new mission and a new order
numbers_taken : RescueMission → MaintenanceOrder → Database → Bool
numbers_taken m o db =
    any_number (find (λ (r : RescueMission). r.mission_no == m.mission_no) db.missions)
    || any_number (find (λ (r : MaintenanceOrder). r.order_no == o.order_no) db.orders)
    || any_number (find (λ (r : MaintenanceOrder). r.task_id == o.task_id) db.orders)

pub add_case : RescueMission → MaintenanceOrder → Run (Unit {0})
add_case m o = do
  taken ← read (numbers_taken m o)
  require (not taken) integrity_error
  write (λ db. record db {
    missions = record m { id = db.next_id } ∷ db.missions;
    orders = record o { id = db.next_id } ∷ db.orders;
    next_id = db.next_id + 1;
  })

-- Every text that `create_breakdown_case` puts together.
pub record Numbers : Type 0 where
  pub mission_no : BreakdownCaseRequest → String
  pub order_no : BreakdownCaseRequest → String

new_mission : Numbers → BreakdownCaseRequest → RescueMission
new_mission numbers r = record {
  id = 0;
  mission_no = numbers.mission_no r;
  task_id = r.task_id;
  vehicle_id = r.vehicle_id;
  rescue_unit_id = r.rescue_unit_id;
  status = dispatched;
  incident_node_id = r.incident_node_id;
  station_node_id = r.station_node_id;
  outbound_edge_ids = r.outbound_edge_ids;
  tow_edge_ids = r.tow_edge_ids;
  next_transition_at = some (r.occurred_at + 8);
  attempt_count = 0;
  failure_reason = none;
}

new_order : Numbers → BreakdownCaseRequest → MaintenanceBay → MaintenanceOrder
new_order numbers r bay = record {
  id = 0;
  order_no = numbers.order_no r;
  task_id = r.task_id;
  vehicle_id = r.vehicle_id;
  bay_code = some bay.bay_code;
  status = scheduled;
  fault_code = r.fault_code;
  diagnosis = some r.diagnosis;
  repair_minutes = r.repair_minutes;
  manual_inspection_required = r.manual_inspection_required;
  inspection_result = none;
  next_transition_at = none;
  available_after = none;
}

send_replacement : BreakdownCaseRequest → Option String → Run (Unit {0})
send_replacement r none = pure tt
send_replacement r (some id) = do
  transition_vehicle id dispatching "接替故障车辆配送任务" r.task_id r.occurred_at
  transition_vehicle id in_transit "货物责任已转移并继续配送" r.task_id r.occurred_at

-- `if replacement_id:`
announce_replacement : BreakdownCaseRequest → Option String → Run (Unit {0})
announce_replacement r none = pure tt
announce_replacement r (some id) =
    if id == ""
    then pure tt
    else add_event r.task_id "vehicle" id "REPLACEMENT_DISPATCHED"
        (replacement id r.replacement_edge_ids)

-- The rows and the events of a new case, once the unit and the bay are there.
open_case : Numbers → BreakdownCaseRequest → MaintenanceBay → Run OperationCaseSnapshot
open_case numbers r bay = do
  transition_vehicle r.vehicle_id broken "员工上报车辆故障并安全停车" r.task_id r.occurred_at
  transition_vehicle r.vehicle_id waiting_rescue "救援与拖车任务已创建" r.task_id r.occurred_at
  change_vehicle r.vehicle_id (λ v. record v { fault_code = some r.fault_code })
  send_replacement r r.replacement_vehicle_id
  add_case (new_mission numbers r) (new_order numbers r bay)
  change_unit r.rescue_unit_id (λ u. record u { status = "DISPATCHED" })
  change_bay bay.bay_code
      (λ b. record b { status = "RESERVED"; current_order_no = some (numbers.order_no r) })
  change_vehicle r.vehicle_id
      (λ v. record v { maintenance_order_no = some (numbers.order_no r); available_after = none })
  add_event r.task_id "vehicle" r.vehicle_id "VEHICLE_STOPPED" (stopped_vehicle r.vehicle_id)
  announce_replacement r r.replacement_vehicle_id
  add_event r.task_id "rescue" (numbers.mission_no r) "RESCUE_DISPATCHED"
      (mission_number (numbers.mission_no r))
  add_event r.task_id "maintenance" (numbers.order_no r) "MAINTENANCE_SCHEDULED"
      (order_number (numbers.order_no r))
  case_of_task r.task_id

create_new : Numbers → BreakdownCaseRequest → Option RescueMission → Run OperationCaseSnapshot
create_new numbers r (some existing) = case_of existing
create_new numbers r none = do
  vehicle_for_update r.vehicle_id
  unit ← read (unit_of r.rescue_unit_id)
  require (unit_is_available unit) operations_conflict
  bay ← read free_bay >>= or_raise operations_conflict
  open_case numbers r bay

pub create_breakdown_case : Numbers → BreakdownCaseRequest → Run OperationCaseSnapshot
create_breakdown_case numbers r = read (mission_of r.task_id) >>= create_new numbers r

with_edges : List String → Payload → Payload
with_edges edges (replacement id old) = replacement id edges
with_edges edges payload = payload

pub update_replacement_route : String → List String → Run OperationCaseSnapshot
update_replacement_route task_id edges = do
  read (replacement_event task_id) >>= or_raise operation_not_found
  m ← read (mission_of task_id) >>= or_raise operation_not_found
  write (λ db. record db {
    outbox =
        change (is_replacement_of task_id)
          (λ (e : DomainOutbox). record e { payload = with_edges edges e.payload }) db.outbox;
  })
  case_of m
