-- ===== src/Vehicles/Cases.antt =====
-- The snapshots of backend/app/vehicle_operations/models.py, and `_case`, `get_case` and
-- `vehicle_node` of sqlalchemy_repository.py: what a transaction reads of a breakdown case.
pub mod Reads
use model_lib.Base.{ℕ, String, Bool, true, false, ◌&&◌, Option, none, some, List, [], ◌∷◌}
use model_lib.Base.Eq.{◌==◌, string_eq}
use model_lib.Vehicles.Status.{VehicleOperationalStatus, RescueStatus, MaintenanceStatus}
use model_lib.Vehicles.Tables.{
  FleetVehicle, RescueMission, MaintenanceOrder, DomainOutbox, Payload, replacement, Database,
  operation_not_found, key_error, Run, pure, raise, read, or_raise, ◌>>=◌, find, has_vehicle_id,
}

-- A row's snapshot is the row here: the fields that a snapshot leaves out are not read.
pub record OperationCaseSnapshot : Type 0 where
  pub task_id : String
  pub vehicle_id : String
  pub vehicle_status : VehicleOperationalStatus
  pub replacement_vehicle_id : Option String
  pub replacement_vehicle_status : Option VehicleOperationalStatus
  pub mission : RescueMission
  pub maintenance : MaintenanceOrder
  pub replacement_edge_ids : List String

unfoldable pub mission_of : String → Database → Option RescueMission
mission_of task_id db = find (λ (m : RescueMission). m.task_id == task_id) db.missions

unfoldable pub order_of : String → Database → Option MaintenanceOrder
order_of task_id db = find (λ (o : MaintenanceOrder). o.task_id == task_id) db.orders

unfoldable pub is_replacement_of : String → DomainOutbox → Bool
is_replacement_of task_id e = e.task_id == task_id && e.event_type == "REPLACEMENT_DISPATCHED"

unfoldable pub replacement_event : String → Database → Option DomainOutbox
replacement_event task_id db = find (is_replacement_of task_id) db.outbox

-- `payload_json["vehicle_id"]` and `payload_json.get("edge_ids", ())`
unfoldable pub replacement_of : Payload → Run (Option (String × List String))
replacement_of (replacement id edges) = pure (some (id, edges))
replacement_of _ = raise key_error

unfoldable pub replacement_in : Option DomainOutbox → Run (Option (String × List String))
replacement_in none = pure none
replacement_in (some e) = replacement_of e.payload

unfoldable pub status_of_row : Option FleetVehicle → Option VehicleOperationalStatus
status_of_row none = none
status_of_row (some v) = some v.status

unfoldable pub status_of : Database → String → Option VehicleOperationalStatus
status_of db id = status_of_row (find (has_vehicle_id id) db.vehicles)

unfoldable pub make_case :
    RescueMission
    → MaintenanceOrder
    → FleetVehicle
    → Option (String × List String)
    → Run OperationCaseSnapshot
make_case m o v none = pure (record {
  task_id = m.task_id;
  vehicle_id = v.vehicle_id;
  vehicle_status = v.status;
  replacement_vehicle_id = none;
  replacement_vehicle_status = none;
  mission = m;
  maintenance = o;
  replacement_edge_ids = [];
})
make_case m o v (some (id, edges)) = do
  status ← read (λ db. status_of db id)
  pure (record {
    task_id = m.task_id;
    vehicle_id = v.vehicle_id;
    vehicle_status = v.status;
    replacement_vehicle_id = some id;
    replacement_vehicle_status = status;
    mission = m;
    maintenance = o;
    replacement_edge_ids = edges;
  })

-- `_case`
unfoldable pub case_of : RescueMission → Run OperationCaseSnapshot
case_of m = do
  o ← read (order_of m.task_id) >>= or_raise operation_not_found
  v ← read (λ db. find (has_vehicle_id m.vehicle_id) db.vehicles) >>= or_raise operation_not_found
  r ← read (replacement_event m.task_id) >>= replacement_in
  make_case m o v r

-- `_case` of the mission of a task, as it is by now
unfoldable pub case_of_task : String → Run OperationCaseSnapshot
case_of_task task_id = read (mission_of task_id) >>= or_raise operation_not_found >>= case_of

-- Whether a call returned a case, as `None` is none.
unfoldable pub is_case : Option OperationCaseSnapshot → Bool
is_case none = false
is_case (some c) = true

unfoldable pub optional_case : Option RescueMission → Run (Option OperationCaseSnapshot)
optional_case none = pure none
optional_case (some m) = case_of m >>= λ c. pure (some c)

unfoldable pub get_case : String → Run (Option OperationCaseSnapshot)
get_case task_id = read (mission_of task_id) >>= optional_case

unfoldable pub node_in : Option FleetVehicle → Run String
node_in none = raise operation_not_found
node_in (some v) = pure v.current_node_id

unfoldable pub vehicle_node : String → Run String
vehicle_node id = read (λ db. find (has_vehicle_id id) db.vehicles) >>= node_in
