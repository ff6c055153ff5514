-- ===== src/Vehicles/Rescue/Keeps.antt =====
-- What the steps of a rescue keep.
use model_lib.Base.{ℕ, String, Option, none, some}
use model_lib.Vehicles.Status.{RescueStatus, dispatched, arrived, loaded}
use model_lib.Vehicles.Tables.{Database, RescueUnit, RescueMission, MaintenanceOrder}
use model_lib.Vehicles.Tables.Keeps.{Keeps, Keeps-raise, keeps_rules, Throughout}
use model_lib.Vehicles.Cases.Reads.{case_of_task-Keeps}
use model_lib.Vehicles.Rescue.{
  queue_order, step_mission, deliver, advance_mission, advance_rescue, advance_one_due_rescue,
  start_again, retry_rescue,
}

module _ {P : Database → Type 0} (t : Throughout P) where
  queue_order-Keeps :
      (m : RescueMission) (now : ℕ) (o : Option MaintenanceOrder) → Keeps P (queue_order m now o)
  unfolding queue_order
  queue_order-Keeps m now none = search keeps_rules
  queue_order-Keeps m now (some o) = search (keeps_rules, t.order)

  step_mission-Keeps :
      (m : RescueMission) (target : RescueStatus) (next : Option ℕ) (event_type : String)
      → Keeps P (step_mission m target next event_type)
  unfolding step_mission
  step_mission-Keeps m target next event_type = search (keeps_rules, t.mission, t.aside.event)

  deliver-Keeps : (m : RescueMission) (now : ℕ) → Keeps P (deliver m now)
  unfolding deliver
  deliver-Keeps m now =
      search (keeps_rules, t.aside.moved, t.aside.vehicle, t.aside.unit, queue_order-Keeps) depth 16

  advance_mission-Keeps :
      (now : ℕ) (m : RescueMission) (s : RescueStatus) → Keeps P (advance_mission now m s)
  unfolding advance_mission
  advance_mission-Keeps now m dispatched = step_mission-Keeps m _ _ _
  advance_mission-Keeps now m arrived = search (keeps_rules, step_mission-Keeps, t.aside.moved)
  advance_mission-Keeps now m loaded = search (keeps_rules, step_mission-Keeps, deliver-Keeps)
  advance_mission-Keeps now m _ = Keeps-raise _

  advance_rescue-Keeps : (now : ℕ) (m : Option RescueMission) → Keeps P (advance_rescue now m)
  unfolding advance_rescue
  advance_rescue-Keeps now none = search keeps_rules
  advance_rescue-Keeps now (some m) =
      search (keeps_rules, advance_mission-Keeps, case_of_task-Keeps)

  pub advance_one_due_rescue-Keeps : (now : ℕ) → Keeps P (advance_one_due_rescue now)
  unfolding advance_one_due_rescue
  advance_one_due_rescue-Keeps now = search (keeps_rules, advance_rescue-Keeps)

  start_again-Keeps :
      (m : RescueMission) (now : ℕ) (unit : Option RescueUnit) → Keeps P (start_again m now unit)
  unfolding start_again
  start_again-Keeps m now unit =
      search (keeps_rules, t.mission, t.aside.unit, t.aside.event, case_of_task-Keeps) depth 16

  pub retry_rescue-Keeps : (mission_no : String) (now : ℕ) → Keeps P (retry_rescue mission_no now)
  unfolding retry_rescue
  retry_rescue-Keeps mission_no now = search (keeps_rules, start_again-Keeps) depth 16
