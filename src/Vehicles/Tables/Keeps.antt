-- ===== src/Vehicles/Tables/Keeps.antt =====
-- What a transaction keeps, one rule for each way to build a transaction.
use model_lib.Base.{ℕ, String, ◌≡◌, refl, Bool, true, false, Option, none, some, if◌then◌else◌}
use model_lib.Vehicles.Status.{VehicleOperationalStatus}
use model_lib.Vehicles.Tables.{
  FleetVehicle, RescueUnit, MaintenanceBay, RescueMission, MaintenanceOrder, Payload, Database,
  OperationError, Outcome, returned, raised, Run, pure, raise, read, or_raise, write, go_on, ◌>>=◌,
  ◌>>◌, require, change_vehicle, change_unit, change_bay, change_mission, change_order, add_event,
  vehicle_for_update, transition_vehicle,
}

-- A condition on the database that a returned value comes with.
abbrev pub After {ℓ} : {A : Type ℓ} → (Database → Type 0) → Outcome A → Type 0
After P (returned a db) = P db
After P (raised e) = Unit

pub record Keeps {ℓ} {A : Type ℓ} (P : Database → Type 0) (m : Run A) : Type ℓ where
  pub at : (db : Database) → P db → After P (m db)

module _ {ℓ} {A : Type ℓ} {P : Database → Type 0} where
  pub Keeps-pure : (a : A) → Keeps P (pure a)
  Keeps-pure a = record { at = λ db h. h }

  pub Keeps-raise : (e : OperationError) → Keeps {A = A} P (raise e)
  Keeps-raise e = record { at = λ db h. tt }

  pub Keeps-read : (f : Database → A) → Keeps P (read f)
  Keeps-read f = record { at = λ db h. h }

  pub Keeps-or_raise : (e : OperationError) (o : Option A) → Keeps P (or_raise e o)
  Keeps-or_raise e none = record { at = λ db h. tt }
  Keeps-or_raise e (some a) = record { at = λ db h. h }

  pub Keeps-if : (b : Bool) (m k : Run A) → Keeps P m → Keeps P k → Keeps P (if b then m else k)
  Keeps-if true m k hm hk = hm
  Keeps-if false m k hm hk = hk

module _ {P : Database → Type 0} where
  pub Keeps-require : (b : Bool) (e : OperationError) → Keeps P (require b e)
  Keeps-require true e = record { at = λ db h. h }
  Keeps-require false e = record { at = λ db h. tt }

  pub Keeps-write :
      (f : Database → Database) → ((db : Database) → P db → P (f db)) → Keeps P (write f)
  Keeps-write f h = record { at = h }

module _ {ℓ κ} {A : Type ℓ} {B : Type κ} {P : Database → Type 0} where
  pub go_on-After :
      (o : Outcome A) (f : A → Run B) → After P o → ((a : A) → Keeps P (f a)) → After P (go_on o f)
  go_on-After (returned a db) f h k = (k a).at db h
  go_on-After (raised e) f h k = tt

  pub Keeps-bind :
      (m : Run A) (f : A → Run B) → Keeps P m → ((a : A) → Keeps P (f a)) → Keeps P (m >>= f)
  Keeps-bind m f h k = record { at = λ db p. go_on-After (m db) f (h.at db p) k }

pub ruleset keeps_rules =
    (Keeps-pure, Keeps-raise, Keeps-read, Keeps-or_raise, Keeps-if, Keeps-require, Keeps-bind)

-- A condition that no transaction changes by what it does besides its own mission and order.
pub record Aside (P : Database → Type 0) : Type 0 where
  pub vehicle :
      (id : String) (f : FleetVehicle → FleetVehicle)
      → ((v : FleetVehicle) → ((f v).vehicle_id ≡ v.vehicle_id) × ((f v).status ≡ v.status))
      → Keeps P (change_vehicle id f)
  pub moved :
      (id : String) (target : VehicleOperationalStatus) (reason task_id : String) (now : ℕ)
      → Keeps P (transition_vehicle id target reason task_id now)
  pub unit : (id : String) (f : RescueUnit → RescueUnit) → Keeps P (change_unit id f)
  pub bay : (code : String) (f : MaintenanceBay → MaintenanceBay) → Keeps P (change_bay code f)
  pub event :
      (task_id aggregate_type aggregate_id event_type : String) (payload : Payload)
      → Keeps P (add_event task_id aggregate_type aggregate_id event_type payload)

-- ... and by its mission and order neither, whose tasks stay as they are.
pub record Throughout (P : Database → Type 0) : Type 0 where
  pub aside : Aside P
  pub mission :
      (task_id : String) (f : RescueMission → RescueMission)
      → ((m : RescueMission) → (f m).task_id ≡ m.task_id)
      → Keeps P (change_mission task_id f)
  pub order :
      (task_id : String) (f : MaintenanceOrder → MaintenanceOrder)
      → ((o : MaintenanceOrder) → (f o).task_id ≡ o.task_id)
      → Keeps P (change_order task_id f)

module _ {P : Database → Type 0} where
  pub vehicle_for_update-Keeps : (id : String) → Keeps P (vehicle_for_update id)
  unfolding vehicle_for_update
  vehicle_for_update-Keeps id = search keeps_rules

pub After-require {ℓ} :
    {A : Type ℓ} (P : Database → Type 0) (b : Bool) (e : OperationError) (k : Run A) (db : Database)
    → (b ≡ true → After P (k db))
    → After P ((require b e >> k) db)
After-require P true e k db h = h refl
After-require P false e k db h = tt
