-- ===== src/Vehicles/Rescue/Nearer.antt =====
-- Each advance of a rescue leaves less work.
use model_lib.Base.{
  ℕ, ◌+◌, ◌<◌, String, ◌≡◌, refl, Option, none, some, arith, Option-cases, inl, inr,
}
use model_lib.Base.Eq.{string_eq}
use model_lib.Vehicles.Status.{
  RescueStatus, rescue_transition, maintenance_transition, dispatched, arrived, loaded, delivered,
  waiting_bay,
}
use model_lib.Vehicles.Tables.{
  RescueMission, MaintenanceOrder, Database, ◌>>=◌, read, find, change_mission, change_order,
  invalid_state_transition,
}
use model_lib.Vehicles.Tables.Keeps.{After, After-require, Keeps, go_on-After, keeps_rules}
use model_lib.Vehicles.Tables.Keyed.{has_key, Unique, total-change}
use model_lib.Vehicles.Cases.{order_of, is_case}
use model_lib.Vehicles.Cases.Reads.{case_of_task-Keeps}
use model_lib.Vehicles.Due.Found.{first_due-find}
use model_lib.Vehicles.Work.{
  mission_work, order_work, work, Under, Spends, Under-Spends, Under-Aside, change_mission-Under,
}
use model_lib.Vehicles.Rescue.{
  queue_order, step_mission, deliver, advance_mission, advance_rescue, due_mission,
  advance_one_due_rescue,
}

module _ {bound : ℕ} where
  queue_order-Under :
      (m : RescueMission) (now : ℕ) (db : Database) (o : Option MaintenanceOrder)
      → order_of m.task_id db ≡ o
      → Under bound db
      → After (Under bound) (queue_order m now o db)
  unfolding queue_order order_of change_order work order_work maintenance_transition
  queue_order-Under m now db none e u = u
  queue_order-Under m now db (some o) e u =
      After-require (Under bound) (maintenance_transition o.status waiting_bay)
        invalid_state_transition _ db
        (λ allowed. record {
          below = ground (
            arith,
            u.below,
            allowed,
            total-change order_work (has_key (λ r. r.task_id) m.task_id)
                (λ o. record o { status = waiting_bay; next_transition_at = some (now + 1) }) o
                db.orders e,
          );
        })

  queue_read-Under :
      (m : RescueMission) (now : ℕ)
      → Keeps (Under bound) (read (order_of m.task_id) >>= queue_order m now)
  queue_read-Under m now = record {
    at = λ db u. queue_order-Under m now db (order_of m.task_id db) refl u;
  }

  deliver-Under : (m : RescueMission) (now : ℕ) → Keeps (Under bound) (deliver m now)
  unfolding deliver
  deliver-Under m now =
      search
        (keeps_rules, Under-Aside.moved, Under-Aside.vehicle, Under-Aside.unit, queue_read-Under)
        depth 16

module _ (m : RescueMission) (target : RescueStatus) (next : Option ℕ) (event_type : String) where
  step_mission-Under :
      (db : Database)
      → find (has_key (λ (r : RescueMission). r.task_id) m.task_id) db.missions ≡ some m
      → mission_work (record m { status = target }) < mission_work m
      → After (Under (work db)) (step_mission m target next event_type db)
  unfolding step_mission mission_work
  step_mission-Under db found less =
      After-require (Under (work db)) (rescue_transition m.status target) invalid_state_transition _
        db
        (λ allowed.
          go_on-After (change_mission m.task_id _ db) _ (change_mission-Under _ m db found less)
            (λ _. Under-Aside.event m.task_id "rescue" m.mission_no event_type _))

module _ (now : ℕ) (m : RescueMission) (db : Database) where
  advance_mission-Under :
      (s : RescueStatus)
      → m.status ≡ s
      → find (has_key (λ (r : RescueMission). r.task_id) m.task_id) db.missions ≡ some m
      → After (Under (work db)) (advance_mission now m s db)
  unfolding advance_mission mission_work
  advance_mission-Under dispatched e found = step_mission-Under m _ _ _ db found (ground (arith, e))
  advance_mission-Under arrived e found =
      go_on-After (step_mission m loaded _ _ db) _
        (step_mission-Under m _ _ _ db found (ground (arith, e))) (λ _. Under-Aside.moved _ _ _ _ _)
  advance_mission-Under loaded e found =
      go_on-After (step_mission m delivered _ _ db) _
        (step_mission-Under m _ _ _ db found (ground (arith, e))) (λ _. deliver-Under m now)
  advance_mission-Under _ e found = tt

pub advance_one_due_rescue-Spends :
    (now : ℕ) (db : Database)
    → Unique (λ (r : RescueMission). r.task_id) db.missions
    → Spends db (advance_one_due_rescue now db)
unfolding advance_one_due_rescue due_mission advance_rescue Spends is_case
advance_one_due_rescue-Spends now db u = elim (Option-cases (due_mission now db)) [
  | inl e ↦ rw e (omega arith)
  | inr (m, e) ↦ rw e (
      Under-Spends db _ (
        go_on-After (advance_mission now m m.status db) _
          (advance_mission-Under now m db m.status refl
            (first_due-find _ _ _ (λ (r : RescueMission). r.task_id) m db.missions u e).0)
          (λ _. search (keeps_rules, case_of_task-Keeps))))
]
