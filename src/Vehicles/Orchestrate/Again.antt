-- ===== src/Vehicles/Orchestrate/Again.antt =====
-- A breakdown that is orchestrated again opens no second case.
use model_lib.Base.{String, ◌≡◌, refl, Option, none, some, List}
use model_lib.Vehicles.Tables.{
  FleetVehicle, RescueMission, DomainOutbox, Database, Outcome, returned, raised, pure, go_on,
}
use model_lib.Vehicles.Tables.Keeps.{After, Keeps, keeps_rules}
use model_lib.Vehicles.Cases.{
  OperationCaseSnapshot, mission_of, case_of, optional_case, get_case, node_in, vehicle_node,
}
use model_lib.Vehicles.Cases.Reads.{case_of-Keeps}
use model_lib.Vehicles.Opening.{update_replacement_route}
use model_lib.Vehicles.Opening.Keeps.{update_replacement_route-Keeps}
use model_lib.Vehicles.Orchestrate.{
  BreakdownOrchestrationInput, RescueOrchestrationService, route_or_raise, reroute, is_unrouted,
  orchestrate_from, orchestrate,
}

-- Two databases that differ in their outboxes at most
pub record SameTables (db after : Database) : Type 0 where
  pub vehicles_stay : after.vehicles ≡ db.vehicles
  pub units_stay : after.units ≡ db.units
  pub bays_stay : after.bays ≡ db.bays
  pub missions_stay : after.missions ≡ db.missions
  pub orders_stay : after.orders ≡ db.orders
  pub history_stays : after.history ≡ db.history

module _ {P : Database → Type 0} where
  node_in-Keeps : (v : Option FleetVehicle) → Keeps P (node_in v)
  unfolding node_in
  node_in-Keeps none = search keeps_rules
  node_in-Keeps (some v) = search keeps_rules

  vehicle_node-Keeps : (id : String) → Keeps P (vehicle_node id)
  unfolding vehicle_node
  vehicle_node-Keeps id = search (keeps_rules, node_in-Keeps)

  route_or_raise-Keeps :
      (s : RescueOrchestrationService) (from to : String) → Keeps P (route_or_raise s from to)
  unfolding route_or_raise
  route_or_raise-Keeps s from to = search keeps_rules

module _ (db : Database) (s : RescueOrchestrationService)
    (command : BreakdownOrchestrationInput) where
  outbox-SameTables :
      (now : Database) (outbox : List DomainOutbox)
      → SameTables db now
      → SameTables db (record now { outbox = outbox })
  outbox-SameTables now outbox same = record {
    vehicles_stay = same.vehicles_stay;
    units_stay = same.units_stay;
    bays_stay = same.bays_stay;
    missions_stay = same.missions_stay;
    orders_stay = same.orders_stay;
    history_stays = same.history_stays;
  }

  update_replacement_route-SameTables :
      (task_id : String) (edges : List String)
      → Keeps (SameTables db) (update_replacement_route task_id edges)
  update_replacement_route-SameTables = update_replacement_route-Keeps outbox-SameTables

  reroute-Keeps :
      (c : OperationCaseSnapshot) (id : Option String)
      → Keeps (SameTables db) (reroute s command c id)
  unfolding reroute
  reroute-Keeps c none = search keeps_rules
  reroute-Keeps c (some id) =
      search
        (keeps_rules, vehicle_node-Keeps, route_or_raise-Keeps, update_replacement_route-SameTables)
        depth 12

  go_on-case :
      (o : Outcome OperationCaseSnapshot)
      → After (SameTables db) o
      → After (SameTables db) (go_on (go_on o (λ c. pure (some c))) (orchestrate_from s command))
  unfolding orchestrate_from
  go_on-case (returned c now) same = (reroute-Keeps c (is_unrouted c)).at now same
  go_on-case (raised e) same = tt

  -- Orchestrating a breakdown whose task has a mission opens no other case: if it returns, the
  -- vehicles, the units, the bays, the missions, the orders and the history are as they were.
  pub orchestrate_again :
      (m : RescueMission)
      → mission_of command.task_id db ≡ some m
      → After (SameTables db) (orchestrate s command db)
  unfolding orchestrate get_case optional_case
  orchestrate_again m e = rw e (
      go_on-case (case_of m db) (
        (case_of-Keeps m).at db (record {
          vehicles_stay = refl;
          units_stay = refl;
          bays_stay = refl;
          missions_stay = refl;
          orders_stay = refl;
          history_stays = refl;
        })))
