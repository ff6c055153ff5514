-- ===== src/Vehicles/History.antt =====
-- The history of the vehicles' statuses that _transition_vehicle of
-- backend/app/vehicle_operations/sqlalchemy_repository.py writes, and what it says of the vehicles.
use model_lib.Base.{
  ℕ, String, ◌≡◌, refl, sym, ap, ◌∙◌, true, Option, some, List, [], ◌∷◌, if◌then◌else◌, Bool-cases,
  Option-cases, arith, inl, inr,
}
use model_lib.Base.Eq.{◌==◌, string_eq, ==_iff}
use model_lib.Vehicles.Status.{VehicleOperationalStatus, vehicle_transition}
use model_lib.Vehicles.Tables.{
  FleetVehicle, VehicleStatusHistory, Database, invalid_state_transition, write, ◌>>◌, require,
  find, change, change_vehicle, has_vehicle_id, vehicle_for_update, move_vehicle,
  transition_vehicle, change_unit, change_bay, change_mission, change_order, add_event,
}
use model_lib.Vehicles.Tables.Keeps.{After, Keeps, Throughout}
use model_lib.Vehicles.Cases.{status_of, status_of_row}

-- The status of a vehicle that a history leads to, from a status before it.
unfoldable pub replay :
    (String → Option VehicleOperationalStatus)
    → List VehicleStatusHistory
    → String
    → Option VehicleOperationalStatus
replay start [] id = start id
replay start (e ∷ past) id = if e.vehicle_id == id then some e.to_status else replay start past id

-- Each change is an allowed one, from the status that the changes before it led to.
unfoldable pub Legal :
    (String → Option VehicleOperationalStatus) → List VehicleStatusHistory → Type 0
Legal start [] = Unit
Legal start (e ∷ past) =
    (vehicle_transition e.from_status e.to_status ≡ true)
    × (replay start past e.vehicle_id ≡ some e.from_status)
    × Legal start past

pub record Told (start : String → Option VehicleOperationalStatus) (db : Database) : Type 0 where
  pub current : (id : String) → status_of db id ≡ replay start db.history id
  pub legal : Legal start db.history

module _ (id other : String) (f : FleetVehicle → FleetVehicle) where
  status-change :
      ((v : FleetVehicle) → ((f v).vehicle_id ≡ v.vehicle_id) × ((f v).status ≡ v.status))
      → (vs : List FleetVehicle)
      → status_of_row (find (has_vehicle_id other) (change (has_vehicle_id id) f vs))
        ≡ status_of_row (find (has_vehicle_id other) vs)
  unfolding find change status_of_row
  status-change h [] = refl
  status-change h (v ∷ vs) = ground (arith, h v, status-change h vs)

  status-change_to :
      (s : VehicleOperationalStatus)
      → ((v : FleetVehicle) → ((f v).vehicle_id ≡ v.vehicle_id) × ((f v).status ≡ s))
      → (v : FleetVehicle) (vs : List FleetVehicle) → find (has_vehicle_id id) vs ≡ some v
      → status_of_row (find (has_vehicle_id other) (change (has_vehicle_id id) f vs))
        ≡ (if id == other then some s else status_of_row (find (has_vehicle_id other) vs))
  unfolding find change status_of_row
  status-change_to s h v [] e = ground arith
  status-change_to s h v (x ∷ vs) e = ground (
    arith,
    h x,
    status-change_to s h v vs,
    ==_iff x.vehicle_id id,
    ==_iff id other,
    ==_iff x.vehicle_id other,
  )

find_id :
    (id : String) (v : FleetVehicle) (vs : List FleetVehicle)
    → find (has_vehicle_id id) vs ≡ some v
    → v.vehicle_id ≡ id
unfolding find
find_id id v [] e = ground arith
find_id id v (x ∷ vs) e = ground (arith, ==_iff x.vehicle_id id, find_id id v vs)

module _ {start : String → Option VehicleOperationalStatus} where
  pub Told-of :
      (db after : Database)
      → Told start db
      → ((id : String) → status_of after id ≡ status_of db id)
      → after.history ≡ db.history
      → Told start after
  Told-of db after h same history = record {
    current = λ id. same id ∙ h.current id ∙ ap (λ past. replay start past id) (sym history);
    legal = rw history h.legal;
  }

  pub change_vehicle-Told :
      (id : String) (f : FleetVehicle → FleetVehicle)
      → ((v : FleetVehicle) → ((f v).vehicle_id ≡ v.vehicle_id) × ((f v).status ≡ v.status))
      → Keeps (Told start) (change_vehicle id f)
  unfolding change_vehicle status_of
  change_vehicle-Told id f h = record {
    at = λ db t. Told-of db _ t (λ other. status-change id other f h db.vehicles) refl;
  }

  move_vehicle-Told :
      (db : Database) (v : FleetVehicle) (target : VehicleOperationalStatus)
      (reason task_id : String) (now : ℕ)
      → Told start db
      → find (has_vehicle_id v.vehicle_id) db.vehicles ≡ some v
      → vehicle_transition v.status target ≡ true
      → Told start (move_vehicle v target reason task_id now db)
  unfolding move_vehicle status_of replay Legal status_of_row
  move_vehicle-Told db v target reason task_id now t found allowed = record {
    current = λ other.
        status-change_to v.vehicle_id other _ target (λ row. (refl, refl)) v db.vehicles found
        ∙ ap (λ s. if v.vehicle_id == other then some target else s) (t.current other);
    legal = (allowed, sym (t.current v.vehicle_id) ∙ ap status_of_row found, t.legal);
  }

  transition_found-Told :
      (db : Database) (v : FleetVehicle) (target : VehicleOperationalStatus)
      (reason task_id : String) (now : ℕ)
      → Told start db
      → find (has_vehicle_id v.vehicle_id) db.vehicles ≡ some v
      → After (Told start) (
          (require (vehicle_transition v.status target) invalid_state_transition
              >> write (move_vehicle v target reason task_id now))
            db)
  transition_found-Told db v target reason task_id now t found =
      elim (Bool-cases (vehicle_transition v.status target)) [
        | inl e ↦ rw e (move_vehicle-Told db v target reason task_id now t found e)
        | inr e ↦ rw e tt
      ]

  pub transition_vehicle-Told :
      (id : String) (target : VehicleOperationalStatus) (reason task_id : String) (now : ℕ)
      → Keeps (Told start) (transition_vehicle id target reason task_id now)
  unfolding transition_vehicle vehicle_for_update
  transition_vehicle-Told id target reason task_id now = record {
    at = λ db t. elim (Option-cases (find (has_vehicle_id id) db.vehicles)) [
      | inl e ↦ rw e tt
      | inr (v, e) ↦ rw e (
          transition_found-Told db v target reason task_id now t
            (ap (λ i. find (has_vehicle_id i) db.vehicles) (find_id id v db.vehicles e) ∙ e))
    ];
  }

  pub Told-Throughout : Throughout (Told start)
  unfolding change_unit change_bay change_mission change_order add_event status_of
  Told-Throughout = record {
    aside = record {
      vehicle = change_vehicle-Told;
      moved = transition_vehicle-Told;
      unit = λ id f. record { at = λ db t. Told-of db _ t (λ other. refl) refl };
      bay = λ code f. record { at = λ db t. Told-of db _ t (λ other. refl) refl };
      event = λ a b c d e. record { at = λ db t. Told-of db _ t (λ other. refl) refl };
    };
    mission = λ id f h. record { at = λ db t. Told-of db _ t (λ other. refl) refl };
    order = λ id f h. record { at = λ db t. Told-of db _ t (λ other. refl) refl };
  }
