-- ===== src/Audit/Records.antt =====
-- `_persist_if_possible` of backend/app/audit/service.py on the tables of tasks and audit records. The
-- row of a task is its numeric id; the database gives a new record its id. Failures of the database
-- itself, which become `AuditPersistenceError` too, are left out.
pub mod Once
use model_lib.Base.{
  ℕ, String, Bool, true, false, ◌&&◌, Option, none, some, List, [], ◌∷◌, if◌then◌else◌,
}
use model_lib.Base.Eq.{◌==◌, nat_eq, string_eq}

pub record TaskRow : Type 0 where
  pub id : ℕ
  pub task_id : String

pub record AuditRecord : Type 0 where
  pub id : ℕ
  pub task_id : ℕ
  pub dispatch_id : ℕ
  pub result : String
  pub reason : String
  pub evidence_json : String

pub record AuditTables : Type 0 where
  pub tasks : List TaskRow
  pub records : List AuditRecord

-- The id of the record, that there is none to write, or `AuditPersistenceError`.
pub data Persisted : Type 0 where
  recorded : ℕ → Persisted
  not_recorded task_not_found : Persisted

task_row : List TaskRow → String → Option ℕ
task_row [] task_id = none
task_row (t ∷ ts) task_id = if t.task_id == task_id then some t.id else task_row ts task_id

pub is_for : ℕ → ℕ → AuditRecord → Bool
is_for task dispatch_id r = r.task_id == task && r.dispatch_id == dispatch_id

find_record : List AuditRecord → ℕ → ℕ → Option ℕ
find_record [] task dispatch_id = none
find_record (r ∷ rs) task dispatch_id =
    if is_for task dispatch_id r then some r.id else find_record rs task dispatch_id

-- What a record is written from.
pub record Finding : Type 0 where
  pub status : String
  pub reason : String
  pub evidence_json : String

new_record : ℕ → ℕ → ℕ → Finding → AuditRecord
new_record id task dispatch_id f = record {
  id = id;
  task_id = task;
  dispatch_id = dispatch_id;
  result = f.status;
  reason = f.reason;
  evidence_json = f.evidence_json;
}

write_new : AuditTables → Option ℕ → ℕ → ℕ → ℕ → Finding → AuditTables × Persisted
write_new db (some existing) id task dispatch_id f = (db, recorded existing)
write_new db none id task dispatch_id f =
    (record db { records = new_record id task dispatch_id f ∷ db.records }, recorded id)

for_task : AuditTables → Option ℕ → ℕ → ℕ → Finding → AuditTables × Persisted
for_task db none id dispatch_id f = (db, task_not_found)
for_task db (some task) id dispatch_id f =
    write_new db (find_record db.records task dispatch_id) id task dispatch_id f

-- `_persist_if_possible`, with the id that a new record would get
pub persist_if_possible :
    AuditTables → ℕ → Option String → Option ℕ → Finding → AuditTables × Persisted
persist_if_possible db id (some task_id) (some dispatch_id) f =
    for_task db (task_row db.tasks task_id) id dispatch_id f
persist_if_possible db id none dispatch_id f = (db, not_recorded)
persist_if_possible db id (some task_id) none f = (db, not_recorded)
