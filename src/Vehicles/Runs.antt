-- ===== src/Vehicles/Runs.antt =====
-- Sequences of the transactions of backend/app/vehicle_operations/sqlalchemy_repository.py. A call
-- that raises changes nothing, so only the calls that return are steps.
use mathlib.Core.Path.{subst}
use model_lib.Base.{ℕ, String, ◌≡◌, refl, sym, ap, Bool, true, Option, some, List, [], ◌∷◌, arith}
use model_lib.Base.Eq.{◌==◌, string_eq}
use model_lib.Vehicles.Status.{VehicleOperationalStatus, qa_pending, available, vehicle_transition}
use model_lib.Vehicles.Tables.{
  VehicleStatusHistory, DomainOutbox, RescueMission, MaintenanceOrder, Database, Outcome, returned,
  find,
}
use model_lib.Vehicles.Tables.Keeps.{After, Keeps}
use model_lib.Vehicles.Cases.{OperationCaseSnapshot, status_of}
use model_lib.Vehicles.Opening.{
  BreakdownCaseRequest, Numbers, add_case, create_breakdown_case, update_replacement_route,
}
use model_lib.Vehicles.Opening.Keeps.{
  add_case-Keeps, create_breakdown_case-Keeps, update_replacement_route-Keeps,
}
use model_lib.Vehicles.Rescue.{advance_one_due_rescue, retry_rescue}
use model_lib.Vehicles.Rescue.Keeps.{advance_one_due_rescue-Keeps, retry_rescue-Keeps}
use model_lib.Vehicles.Workshop.{advance_one_due_maintenance, record_inspection}
use model_lib.Vehicles.Workshop.Keeps.{advance_one_due_maintenance-Keeps, record_inspection-Keeps}
use model_lib.Vehicles.History.{replay, Legal, Told, Told-of, Told-Throughout}

pub data Step (db after : Database) : Type 0 where
  opened :
      (numbers : Numbers) (r : BreakdownCaseRequest) (c : OperationCaseSnapshot)
      → create_breakdown_case numbers r db ≡ returned c after
      → Step db after
  rerouted :
      (task_id : String) (edges : List String) (c : OperationCaseSnapshot)
      → update_replacement_route task_id edges db ≡ returned c after
      → Step db after
  rescued :
      (now : ℕ) (c : Option OperationCaseSnapshot)
      → advance_one_due_rescue now db ≡ returned c after
      → Step db after
  maintained :
      (now : ℕ) (c : Option OperationCaseSnapshot)
      → advance_one_due_maintenance now db ≡ returned c after
      → Step db after
  retried :
      (mission_no : String) (now : ℕ) (c : OperationCaseSnapshot)
      → retry_rescue mission_no now db ≡ returned c after
      → Step db after
  inspected :
      (order_no : String) (passed : Bool) (at : ℕ) (by : String) (c : OperationCaseSnapshot)
      → record_inspection order_no passed at by db ≡ returned c after
      → Step db after

pub data Reaches (db : Database) : Database → Type 0 where
  start : Reaches db db
  then_step : (mid after : Database) → Reaches db mid → Step mid after → Reaches db after

After-returned {ℓ} :
    {A : Type ℓ} (P : Database → Type 0) (o : Outcome A) (a : A) (db : Database)
    → o ≡ returned a db
    → After P o
    → P db
After-returned P o a db e h = subst (After P) e h

module _ {first : String → Option VehicleOperationalStatus} where
  add_case-Told : (m : RescueMission) (o : MaintenanceOrder) → Keeps (Told first) (add_case m o)
  unfolding status_of
  add_case-Told = add_case-Keeps (λ db ms os n t. Told-of db _ t (λ id. refl) refl)

  outbox-Told :
      (db : Database) (outbox : List DomainOutbox)
      → Told first db
      → Told first (record db { outbox = outbox })
  unfolding status_of
  outbox-Told db outbox t = Told-of db _ t (λ id. refl) refl

  Step-Told : (db after : Database) → Told first db → Step db after → Told first after
  Step-Told db after t (opened numbers r c e) =
      After-returned (Told first) _ c after e
        ((create_breakdown_case-Keeps Told-Throughout add_case-Told numbers r).at db t)
  Step-Told db after t (rerouted id edges c e) =
      After-returned (Told first) _ c after e
        ((update_replacement_route-Keeps outbox-Told id edges).at db t)
  Step-Told db after t (rescued now c e) =
      After-returned (Told first) _ c after e
        ((advance_one_due_rescue-Keeps Told-Throughout now).at db t)
  Step-Told db after t (maintained now c e) =
      After-returned (Told first) _ c after e
        ((advance_one_due_maintenance-Keeps Told-Throughout now).at db t)
  Step-Told db after t (retried number now c e) =
      After-returned (Told first) _ c after e
        ((retry_rescue-Keeps Told-Throughout number now).at db t)
  Step-Told db after t (inspected number passed at by c e) =
      After-returned (Told first) _ c after e
        ((record_inspection-Keeps Told-Throughout number passed at by).at db t)

  Reaches-Told_from : (db after : Database) → Told first db → Reaches db after → Told first after
  Reaches-Told_from db after t start = t
  Reaches-Told_from db after t (then_step mid _ before step) =
      Step-Told mid after (Reaches-Told_from db mid t before) step

-- From a database whose history is empty, any sequence of the six transactions that return leads to
-- one in which every vehicle's status is the target of its newest history entry, or its first status
-- when it has none, and in which every entry is an allowed change from the status before it.
pub Reaches-Told :
    (db after : Database) → db.history ≡ [] → Reaches db after → Told (status_of db) after
unfolding replay Legal
Reaches-Told db after e run =
    Reaches-Told_from db after
      (record {
        current = λ id. ap (λ past. replay (status_of db) past id) (sym e);
        legal = rw e tt;
      })
      run

unfoldable pub of_vehicle : String → VehicleStatusHistory → Bool
of_vehicle id e = e.vehicle_id == id

unfoldable pub newest : String → List VehicleStatusHistory → Option VehicleStatusHistory
newest id past = find (of_vehicle id) past

replay-newest :
    (first : String → Option VehicleOperationalStatus) (id : String) (e : VehicleStatusHistory)
    (past : List VehicleStatusHistory)
    → Legal first past
    → newest id past ≡ some e
    → (replay first past id ≡ some e.to_status)
      × (vehicle_transition e.from_status e.to_status ≡ true)
unfolding find newest of_vehicle replay Legal
replay-newest first id e [] l h = ground arith
replay-newest first id e (x ∷ past) l h = ground (arith, replay-newest first id e past)

into_available :
    (s : VehicleOperationalStatus) → vehicle_transition s available ≡ true → s ≡ qa_pending
unfolding vehicle_transition
into_available s h = ground arith

-- After any sequence of transactions from a database without history, a vehicle that is available and
-- that a transaction has moved came there from its quality inspection.
pub available_after_qa :
    (db after : Database) (id : String) (e : VehicleStatusHistory)
    → db.history ≡ []
    → Reaches db after
    → newest id after.history ≡ some e
    → status_of after id ≡ some available
    → e.from_status ≡ qa_pending
available_after_qa db after id e empty run last now =
    let t = Reaches-Told db after empty run in
    let (to, allowed) = replay-newest (status_of db) id e after.history t.legal last in
    ground (arith, t.current id, to, allowed, into_available e.from_status)
