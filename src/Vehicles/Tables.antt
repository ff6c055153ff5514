-- ===== src/Vehicles/Tables.antt =====
-- The tables of backend/app/models/vehicle_operation.py and the vehicles' table, and one transaction
-- on them: a call that raises rolls back, so only a returned value comes with a changed database.
-- Times are seconds of one clock. Row versions, which the database layer counts, and foreign keys are
-- left out.
pub mod Keeps
pub mod Keyed
pub mod Aside
use model_lib.Base.{
  ℕ, ◌+◌, String, Bool, true, false, not, Option, none, some, List, [], ◌∷◌, ◌++◌, if◌then◌else◌,
}
use model_lib.Base.Eq.{◌==◌, string_eq}
use model_lib.Vehicles.Status.{
  VehicleOperationalStatus, RescueStatus, MaintenanceStatus, vehicle_transition,
}

pub record FleetVehicle : Type 0 where
  pub vehicle_id : String
  pub status : VehicleOperationalStatus
  pub status_reason : Option String
  pub status_changed_at : Option ℕ
  pub current_node_id : String
  pub fault_code : Option String
  pub available_after : Option ℕ
  pub maintenance_order_no : Option String

pub record RescueUnit : Type 0 where
  pub unit_id : String
  pub status : String
  pub current_node_id : String

pub record MaintenanceBay : Type 0 where
  pub bay_code : String
  pub status : String
  pub current_order_no : Option String

pub record RescueMission : Type 0 where
  pub id : ℕ
  pub mission_no : String
  pub task_id : String
  pub vehicle_id : String
  pub rescue_unit_id : String
  pub status : RescueStatus
  pub incident_node_id : String
  pub station_node_id : String
  pub outbound_edge_ids : List String
  pub tow_edge_ids : List String
  pub next_transition_at : Option ℕ
  pub attempt_count : ℕ
  pub failure_reason : Option String

pub record MaintenanceOrder : Type 0 where
  pub id : ℕ
  pub order_no : String
  pub task_id : String
  pub vehicle_id : String
  pub bay_code : Option String
  pub status : MaintenanceStatus
  pub fault_code : String
  pub diagnosis : Option String
  pub repair_minutes : ℕ
  pub manual_inspection_required : Bool
  pub inspection_result : Option String
  pub next_transition_at : Option ℕ
  pub available_after : Option ℕ

pub record VehicleStatusHistory : Type 0 where
  pub vehicle_id : String
  pub task_id : String
  pub from_status : VehicleOperationalStatus
  pub to_status : VehicleOperationalStatus
  pub reason : String
  pub changed_at : ℕ

pub data Payload : Type 0 where
  stopped_vehicle mission_number order_number : String → Payload
  replacement : String → List String → Payload
  rescue_status : RescueStatus → Payload
  maintenance_status : MaintenanceStatus → Payload
  vehicle_status : VehicleOperationalStatus → Payload
  attempts : ℕ → Payload
  inspection : Bool → String → Payload

pub record DomainOutbox : Type 0 where
  pub task_id : String
  pub aggregate_type : String
  pub aggregate_id : String
  pub event_type : String
  pub payload : Payload

-- The outbox has its oldest event first, the history its newest entry, and the other tables have a
-- new row first. `next_id` is the id that the database gives to the next row.
pub record Database : Type 0 where
  pub vehicles : List FleetVehicle
  pub units : List RescueUnit
  pub bays : List MaintenanceBay
  pub missions : List RescueMission
  pub orders : List MaintenanceOrder
  pub history : List VehicleStatusHistory
  pub outbox : List DomainOutbox
  pub next_id : ℕ

pub data OperationError : Type 0 where
  operation_not_found operations_conflict invalid_state_transition : OperationError
  integrity_error key_error route_unavailable : OperationError

pub data Outcome {ℓ} (A : Type ℓ) : Type ℓ where
  returned : A → Database → Outcome A
  raised : OperationError → Outcome A

abbrev pub Run {ℓ} : Type ℓ → Type ℓ
Run A = Database → Outcome A

module _ {ℓ} {A : Type ℓ} where
  abbrev pub pure : A → Run A
  pure a db = returned a db

  abbrev pub raise : OperationError → Run A
  raise e db = raised e

  -- What a query reads.
  abbrev pub read : (Database → A) → Run A
  read f db = returned (f db) db

  abbrev pub or_raise : OperationError → Option A → Run A
  or_raise e none db = raised e
  or_raise e (some a) db = returned a db

abbrev pub write : (Database → Database) → Run (Unit {0})
write f db = returned tt (f db)

module _ {ℓ κ} {A : Type ℓ} {B : Type κ} where
  abbrev pub go_on : Outcome A → (A → Run B) → Outcome B
  go_on (returned a db) f = f a db
  go_on (raised e) f = raised e

infixl 5 ◌>>=◌ ◌>>◌
abbrev pub ◌>>=◌ {ℓ κ} : {A : Type ℓ} {B : Type κ} → Run A → (A → Run B) → Run B
◌>>=◌ m f db = go_on (m db) f

abbrev pub ◌>>◌ {ℓ κ} : {A : Type ℓ} {B : Type κ} → Run A → Run B → Run B
m >> k = m >>= λ _. k

abbrev pub require : Bool → OperationError → Run (Unit {0})
require b e = if b then pure tt else raise e

-- The first row that a test accepts, and a change of it.
unfoldable pub find {ℓ} : {A : Type ℓ} → (A → Bool) → List A → Option A
find p [] = none
find p (x ∷ xs) = if p x then some x else find p xs

unfoldable pub change {ℓ} : {A : Type ℓ} → (A → Bool) → (A → A) → List A → List A
change p f [] = []
change p f (x ∷ xs) = let rest = change p f xs in if p x then f x ∷ xs else x ∷ rest

abbrev pub has_vehicle_id : String → FleetVehicle → Bool
has_vehicle_id id v = v.vehicle_id == id

-- A change of a vehicle that is no change of its status.
unfoldable pub change_vehicle : String → (FleetVehicle → FleetVehicle) → Run (Unit {0})
change_vehicle id f =
    write (λ db. record db { vehicles = change (has_vehicle_id id) f db.vehicles })

unfoldable pub change_unit : String → (RescueUnit → RescueUnit) → Run (Unit {0})
change_unit id f =
    write (λ db. record db { units = change (λ (u : RescueUnit). u.unit_id == id) f db.units })

unfoldable pub change_bay : String → (MaintenanceBay → MaintenanceBay) → Run (Unit {0})
change_bay code f =
    write (λ db. record db { bays = change (λ (b : MaintenanceBay). b.bay_code == code) f db.bays })

-- A task has one mission and one order.
unfoldable pub change_mission : String → (RescueMission → RescueMission) → Run (Unit {0})
change_mission task_id f = write (λ db. record db {
  missions = change (λ (m : RescueMission). m.task_id == task_id) f db.missions;
})

unfoldable pub change_order : String → (MaintenanceOrder → MaintenanceOrder) → Run (Unit {0})
change_order task_id f = write (λ db. record db {
  orders = change (λ (o : MaintenanceOrder). o.task_id == task_id) f db.orders;
})

-- `_event`; its random id and its time are left out.
unfoldable pub add_event : String → String → String → String → Payload → Run (Unit {0})
add_event task_id aggregate_type aggregate_id event_type payload = write (λ db. record db {
  outbox =
      db.outbox
      ++ record {
        task_id = task_id;
        aggregate_type = aggregate_type;
        aggregate_id = aggregate_id;
        event_type = event_type;
        payload = payload;
      }
        ∷ [];
})

-- `_vehicle_for_update`
unfoldable pub vehicle_for_update : String → Run FleetVehicle
vehicle_for_update id =
    read (λ db. find (has_vehicle_id id) db.vehicles) >>= or_raise operation_not_found

-- What `_transition_vehicle` writes.
unfoldable pub move_vehicle :
    FleetVehicle → VehicleOperationalStatus → String → String → ℕ → Database → Database
move_vehicle v target reason task_id now db = record db {
  vehicles =
      change (has_vehicle_id v.vehicle_id)
        (λ row. record row {
          status = target;
          status_reason = some reason;
          status_changed_at = some now;
        })
        db.vehicles;
  history =
      record {
        vehicle_id = v.vehicle_id;
        task_id = task_id;
        from_status = v.status;
        to_status = target;
        reason = reason;
        changed_at = now;
      }
      ∷ db.history;
}

-- `_transition_vehicle` of the vehicle with an id. A session has one object for a row, so the
-- vehicle's status is the one that the row has by now.
unfoldable pub transition_vehicle :
    String → VehicleOperationalStatus → String → String → ℕ → Run (Unit {0})
transition_vehicle id target reason task_id now = do
  v ← vehicle_for_update id
  require (vehicle_transition v.status target) invalid_state_transition
  write (move_vehicle v target reason task_id now)
