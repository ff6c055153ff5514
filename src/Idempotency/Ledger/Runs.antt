-- ===== src/Idempotency/Ledger/Runs.antt =====
-- The histories of the ledger: any number of sessions of backend/app/idempotency/service.py, one
-- transaction after the other, where each `begin` may have read an older database.
use model_lib.Base.{ℕ, String, Bool, Option, List, []}
use model_lib.Idempotency.Ledger.{Database, begin, set_status}

pub data Step : Database → Database → Type 0 where
  began :
      (seen now : Database) (task_id : String) (order_id : ℕ) (key : String) (anomaly_id : Option ℕ)
      (assignee : Option String)
      → Step now (begin seen now task_id order_id key anomaly_id assignee).0
  changed :
      (db : Database) (task_id status : String) (started completed : Bool) (now : ℕ)
      → Step db (set_status db task_id status started completed now).0

pub data Reach (start : Database) : Database → Type 0 where
  here : Reach start start
  further : {db next : Database} → Reach start db → Step db next → Reach start next

-- The tables before the first task.
abbrev pub empty : List ℕ → List ℕ → Database
empty orders anomalies = record {
  tasks = [];
  threads = [];
  events = [];
  orders = orders;
  anomalies = anomalies;
}
