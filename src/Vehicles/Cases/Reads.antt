-- ===== src/Vehicles/Cases/Reads.antt =====
-- `_case` only reads.
use model_lib.Base.{String, Option, none, some, List}
use model_lib.Vehicles.Tables.{
  FleetVehicle, RescueMission, MaintenanceOrder, DomainOutbox, Payload, replacement, Database,
}
use model_lib.Vehicles.Tables.Keeps.{Keeps, keeps_rules, Keeps-raise}
use model_lib.Vehicles.Cases.{replacement_of, replacement_in, make_case, case_of, case_of_task}

module _ {P : Database → Type 0} where
  replacement_of-Keeps : (p : Payload) → Keeps P (replacement_of p)
  unfolding replacement_of
  replacement_of-Keeps (replacement id edges) = search keeps_rules
  replacement_of-Keeps _ = Keeps-raise _

  replacement_in-Keeps : (e : Option DomainOutbox) → Keeps P (replacement_in e)
  unfolding replacement_in
  replacement_in-Keeps none = search keeps_rules
  replacement_in-Keeps (some e) = replacement_of-Keeps e.payload

  make_case-Keeps :
      (m : RescueMission) (o : MaintenanceOrder) (v : FleetVehicle)
      (r : Option (String × List String))
      → Keeps P (make_case m o v r)
  unfolding make_case
  make_case-Keeps m o v none = search keeps_rules
  make_case-Keeps m o v (some (id, edges)) = search keeps_rules

  pub case_of-Keeps : (m : RescueMission) → Keeps P (case_of m)
  unfolding case_of
  case_of-Keeps m = search (keeps_rules, replacement_in-Keeps, make_case-Keeps) depth 12

  pub case_of_task-Keeps : (task_id : String) → Keeps P (case_of_task task_id)
  unfolding case_of_task
  case_of_task-Keeps task_id = search (keeps_rules, case_of-Keeps)
