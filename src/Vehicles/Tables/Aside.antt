-- ===== src/Vehicles/Tables/Aside.antt =====
-- A condition on the missions and the orders alone holds after what a transaction does besides them.
use model_lib.Base.{ℕ, String, List}
use model_lib.Vehicles.Status.{VehicleOperationalStatus}
use model_lib.Vehicles.Tables.{
  FleetVehicle, RescueUnit, MaintenanceBay, VehicleStatusHistory, DomainOutbox, Database, write,
  change_vehicle, change_unit, change_bay, add_event, move_vehicle, transition_vehicle,
}
use model_lib.Vehicles.Tables.Keeps.{
  Keeps, Keeps-write, keeps_rules, Aside, vehicle_for_update-Keeps,
}

module _ {P : Database → Type 0}
    (stays : (db : Database) (vs : List FleetVehicle) (us : List RescueUnit)
        (bs : List MaintenanceBay) (hs : List VehicleStatusHistory) (es : List DomainOutbox)
      → P db
      → P (record db { vehicles = vs; units = us; bays = bs; history = hs; outbox = es })) where
  move_vehicle-Keeps :
      (v : FleetVehicle) (target : VehicleOperationalStatus) (reason task_id : String) (now : ℕ)
      → Keeps P (write (move_vehicle v target reason task_id now))
  unfolding move_vehicle
  move_vehicle-Keeps v target reason task_id now = Keeps-write _ (λ db h. stays db _ _ _ _ _ h)

  transition_vehicle-Keeps :
      (id : String) (target : VehicleOperationalStatus) (reason task_id : String) (now : ℕ)
      → Keeps P (transition_vehicle id target reason task_id now)
  unfolding transition_vehicle
  transition_vehicle-Keeps id target reason task_id now =
      search (keeps_rules, vehicle_for_update-Keeps, move_vehicle-Keeps)

  pub Aside-of : Aside P
  unfolding change_vehicle change_unit change_bay add_event
  Aside-of = record {
    vehicle = λ id f h. Keeps-write _ (λ db h. stays db _ _ _ _ _ h);
    moved = transition_vehicle-Keeps;
    unit = λ id f. Keeps-write _ (λ db h. stays db _ _ _ _ _ h);
    bay = λ code f. Keeps-write _ (λ db h. stays db _ _ _ _ _ h);
    event = λ a b c d e. Keeps-write _ (λ db h. stays db _ _ _ _ _ h);
  }
