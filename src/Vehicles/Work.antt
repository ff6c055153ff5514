-- ===== src/Vehicles/Work.antt =====
-- How far the cases of a database are from their end, in steps, and that a step brings one nearer.
use model_lib.Base.{ℕ, ◌+◌, ◌≤◌, ◌<◌, ◌≡◌, Option, none, some, if◌then◌else◌, arith}
use model_lib.Base.Eq.{string_eq}
use model_lib.Vehicles.Status.{
  RescueStatus, MaintenanceStatus, dispatched, arrived, loaded, scheduled, waiting_bay, diagnosing,
  repairing,
}
use model_lib.Vehicles.Tables.{
  RescueMission, MaintenanceOrder, Database, Outcome, returned, raised, find, change_mission,
  change_order,
}
use model_lib.Vehicles.Cases.{OperationCaseSnapshot, is_case}
use model_lib.Vehicles.Tables.Keeps.{After, Aside}
use model_lib.Vehicles.Tables.Aside.{Aside-of}
use model_lib.Vehicles.Tables.Keyed.{has_key, total, total-change}

unfoldable pub mission_work : RescueMission → ℕ
mission_work m = of_status m.status
  where
    of_status : RescueStatus → ℕ
    of_status dispatched = 3
    of_status arrived = 2
    of_status loaded = 1
    of_status _ = 0

unfoldable pub order_work : MaintenanceOrder → ℕ
order_work o = of_status o.status o.next_transition_at
  where
    of_status : MaintenanceStatus → Option ℕ → ℕ
    of_status scheduled next = 6
    of_status waiting_bay next = 5
    of_status diagnosing next = 4
    of_status repairing next = 3
    of_status MaintenanceStatus.qa_pending (some at) = 2
    of_status MaintenanceStatus.qa_pending none = 1
    of_status _ next = 0

unfoldable pub work : Database → ℕ
work db = total mission_work db.missions + total order_work db.orders

pub record Under (bound : ℕ) (db : Database) : Type 0 where
  pub below : work db < bound

module _ {bound : ℕ} where
  pub Under-Aside : Aside (Under bound)
  unfolding work
  Under-Aside = Aside-of (λ db vs us bs hs es u. record { below = u.below })

pub change_mission-Under :
    (f : RescueMission → RescueMission) (m : RescueMission) (db : Database)
    → find (has_key (λ (r : RescueMission). r.task_id) m.task_id) db.missions ≡ some m
    → mission_work (f m) < mission_work m
    → After (Under (work db)) (change_mission m.task_id f db)
unfolding change_mission work
change_mission-Under f m db found less = record {
  below = omega (arith, less, total-change mission_work _ f m db.missions found);
}

pub change_order-Under :
    (f : MaintenanceOrder → MaintenanceOrder) (o : MaintenanceOrder) (db : Database)
    → find (has_key (λ (r : MaintenanceOrder). r.task_id) o.task_id) db.orders ≡ some o
    → order_work (f o) < order_work o
    → After (Under (work db)) (change_order o.task_id f db)
unfolding change_order work
change_order-Under f o db found less = record {
  below = omega (arith, less, total-change order_work _ f o db.orders found);
}

-- A step that returns a case leaves less work, and one that returns none no more.
unfoldable pub Spends : Database → Outcome (Option OperationCaseSnapshot) → Type 0
Spends db (returned c after) = (if is_case c then 1 else 0) + work after ≤ work db
Spends db (raised e) = Unit

pub Under-Spends :
    (db : Database) (o : Outcome (Option OperationCaseSnapshot))
    → After (Under (work db)) o
    → Spends db o
unfolding is_case Spends
Under-Spends db (returned none after) u = omega (arith, u.below)
Under-Spends db (returned (some c) after) u = omega (arith, u.below)
Under-Spends db (raised e) u = tt
