-- ===== src/Vehicles/Opening/Keeps.antt =====
-- What opening a case keeps.
use model_lib.Base.{ℕ, String, Option, none, some, List}
use model_lib.Vehicles.Tables.{
  Database, RescueMission, MaintenanceOrder, MaintenanceBay, DomainOutbox,
}
use model_lib.Vehicles.Tables.Keeps.{
  Keeps, Keeps-write, keeps_rules, Throughout, vehicle_for_update-Keeps,
}
use model_lib.Vehicles.Cases.Reads.{case_of-Keeps, case_of_task-Keeps}
use model_lib.Vehicles.Opening.{
  BreakdownCaseRequest, Numbers, add_case, send_replacement, announce_replacement, open_case,
  create_new, create_breakdown_case, update_replacement_route,
}

module _ {P : Database → Type 0} (t : Throughout P)
    (added : (m : RescueMission) (o : MaintenanceOrder) → Keeps P (add_case m o))
    (numbers : Numbers) (r : BreakdownCaseRequest) where
  send_replacement-Keeps : (id : Option String) → Keeps P (send_replacement r id)
  unfolding send_replacement
  send_replacement-Keeps none = search keeps_rules
  send_replacement-Keeps (some id) = search (keeps_rules, t.aside.moved)

  announce_replacement-Keeps : (id : Option String) → Keeps P (announce_replacement r id)
  unfolding announce_replacement
  announce_replacement-Keeps none = search keeps_rules
  announce_replacement-Keeps (some id) = search (keeps_rules, t.aside.event)

  open_case-Keeps : (bay : MaintenanceBay) → Keeps P (open_case numbers r bay)
  unfolding open_case
  open_case-Keeps bay =
      search
        (
          keeps_rules, t.aside.moved, t.aside.vehicle, t.aside.unit, t.aside.bay, t.aside.event,
          added, send_replacement-Keeps, announce_replacement-Keeps, case_of_task-Keeps,
        )
        depth 40

  create_new-Keeps : (existing : Option RescueMission) → Keeps P (create_new numbers r existing)
  unfolding create_new
  create_new-Keeps none = search (keeps_rules, vehicle_for_update-Keeps, open_case-Keeps) depth 16
  create_new-Keeps (some m) = case_of-Keeps m

  pub create_breakdown_case-Keeps : Keeps P (create_breakdown_case numbers r)
  unfolding create_breakdown_case
  create_breakdown_case-Keeps = search (keeps_rules, create_new-Keeps)

pub add_case-Keeps :
    {P : Database → Type 0}
    → ((db : Database) (ms : List RescueMission) (os : List MaintenanceOrder) (next_id : ℕ)
        → P db
        → P (record db { missions = ms; orders = os; next_id = next_id }))
    → (m : RescueMission) (o : MaintenanceOrder) → Keeps P (add_case m o)
unfolding add_case
add_case-Keeps h m o = search (keeps_rules, Keeps-write, h) depth 12

pub update_replacement_route-Keeps :
    {P : Database → Type 0}
    → ((db : Database) (outbox : List DomainOutbox) → P db → P (record db { outbox = outbox }))
    → (task_id : String) (edges : List String) → Keeps P (update_replacement_route task_id edges)
unfolding update_replacement_route
update_replacement_route-Keeps h task_id edges =
    search (keeps_rules, Keeps-write, h, case_of-Keeps) depth 16
