-- ===== src/Idempotency/Ledger.antt =====
-- backend/app/idempotency/service.py over the tables of backend/app/models/task.py and
-- runtime_thread.py. A session of `begin` reads the database as it is first (`seen`), and its writes
-- are one transaction on the database as it is then (`now`), which other sessions may have changed in
-- between; a transaction that breaks a constraint of the tables changes nothing.
pub mod Runs
pub mod Unique
pub mod Once
mod Tests
use model_lib.Base.{
  ℕ, String, Bool, true, false, not, ◌&&◌, ◌||◌, Option, none, some, List, [], ◌∷◌, ◌++◌, map,
  if◌then◌else◌,
}
use model_lib.Base.Eq.{◌==◌, nat_eq, string_eq}
use Prim.Native.String.{◌++◌ as append}

-- A row of `dispatch_tasks`.
pub record DispatchTask : Type 0 where
  pub task_id : String
  pub order_id : ℕ
  pub anomaly_id : Option ℕ
  pub status : String
  pub idempotency_key : String
  pub assignee_subject_id : Option String
  pub started_at : Option ℕ
  pub completed_at : Option ℕ

-- A row of `runtime_threads`, as `begin` writes it.
pub record RuntimeThread : Type 0 where
  pub thread_id : String
  pub task_id : String
  pub status : String
  pub next_node : Option String
  pub state_version : ℕ
  pub checkpoint_count : ℕ
  pub resumed_count : ℕ

pub record RuntimeThreadEvent : Type 0 where
  pub event_key : String
  pub thread_id : String
  pub event_type : String
  pub state_version : ℕ

-- The tables, and the orders and anomalies that a task's foreign keys may name. A new row stands first.
pub record Database : Type 0 where
  pub tasks : List DispatchTask
  pub threads : List RuntimeThread
  pub events : List RuntimeThreadEvent
  pub orders : List ℕ
  pub anomalies : List ℕ

pub data LedgerError : Type 0 where
  idempotency_conflict integrity_error invalid_task unknown_task : LedgerError

pub data Result {ℓ} (A : Type ℓ) : Type ℓ where
  ok : A → Result A
  fails : LedgerError → Result A

pub data IdempotencyState : Type 0 where
  new in_progress terminal : IdempotencyState

pub record IdempotencyDecision : Type 0 where
  pub state : IdempotencyState
  pub task_id : String
  pub idempotency_key : String
  pub existing_status : Option String
  pub should_execute : Bool

pub any {ℓ} : {A : Type ℓ} → (A → Bool) → List A → Bool
any p [] = false
any p (x ∷ xs) = p x || any p xs

-- `session.scalar(select(...).where(...))`
pub find {ℓ} : {A : Type ℓ} → (A → Bool) → List A → Option A
find p [] = none
find p (x ∷ xs) = if p x then some x else find p xs

abbrev pub has_task_id : String → DispatchTask → Bool
has_task_id task_id t = t.task_id == task_id

abbrev pub has_key : String → DispatchTask → Bool
has_key key t = t.idempotency_key == key

pub is_terminal_status : String → Bool
is_terminal_status s =
    s == "APPROVED" || s == "COMPLETED" || s == "DLQ" || s == "FAILED" || s == "REVIEW_REQUIRED"

-- `_decision`
pub decision_of : DispatchTask → IdempotencyDecision
decision_of t =
    if is_terminal_status t.status
    then record {
      state = terminal;
      task_id = t.task_id;
      idempotency_key = t.idempotency_key;
      existing_status = some t.status;
      should_execute = false;
    }
    else record {
      state = in_progress;
      task_id = t.task_id;
      idempotency_key = t.idempotency_key;
      existing_status = some t.status;
      should_execute = false;
    }

abbrev pub new_decision : String → String → IdempotencyDecision
new_decision task_id key = record {
  state = new;
  task_id = task_id;
  idempotency_key = key;
  existing_status = none;
  should_execute = true;
}

key_differs : Option DispatchTask → String → Bool
key_differs none key = false
key_differs (some t) key = not (t.idempotency_key == key)

task_differs : Option DispatchTask → String → Bool
task_differs none task_id = false
task_differs (some t) task_id = not (t.task_id == task_id)

-- `by_task or by_key`
first_of : Option DispatchTask → Option DispatchTask → Option DispatchTask
first_of none b = b
first_of (some a) b = some a

consistent :
    Option DispatchTask → Option DispatchTask → String → String → Result (Option DispatchTask)
consistent by_task by_key task_id key =
    if key_differs by_task key
    then fails idempotency_conflict
    else if task_differs by_key task_id
    then fails idempotency_conflict
    else ok (first_of by_task by_key)

-- `_existing`
pub existing : Database → String → String → Result (Option DispatchTask)
existing db task_id key =
    consistent (find (has_task_id task_id) db.tasks) (find (has_key key) db.tasks) task_id key

-- `thread_id_for_persisted_task` of a text that is not empty
pub thread_id_for : String → String
thread_id_for task_id = append "cf:dispatch:" task_id

new_task : String → ℕ → String → Option ℕ → Option String → DispatchTask
new_task task_id order_id key anomaly_id assignee = record {
  task_id = task_id;
  order_id = order_id;
  anomaly_id = anomaly_id;
  status = "PENDING";
  idempotency_key = key;
  assignee_subject_id = assignee;
  started_at = none;
  completed_at = none;
}

new_thread : String → RuntimeThread
new_thread task_id = record {
  thread_id = thread_id_for task_id;
  task_id = task_id;
  status = "RUNNING";
  next_node = some "intake";
  state_version = 0;
  checkpoint_count = 0;
  resumed_count = 0;
}

created_event : String → RuntimeThreadEvent
created_event task_id = record {
  event_key = "thread:created";
  thread_id = thread_id_for task_id;
  event_type = "THREAD_CREATED";
  state_version = 0;
}

anomaly_missing : Database → Option ℕ → Bool
anomaly_missing db none = false
anomaly_missing db (some id) = not (any (λ anomaly. anomaly == id) db.anomalies)

-- The constraints of the three tables that the new rows can break.
task_breaks : Database → DispatchTask → Bool
task_breaks db t =
    any (has_task_id t.task_id) db.tasks
    || any (has_key t.idempotency_key) db.tasks
    || not (any (λ order. order == t.order_id) db.orders)
    || anomaly_missing db t.anomaly_id

thread_breaks : Database → RuntimeThread → Bool
thread_breaks db t =
    any (λ (r : RuntimeThread). r.thread_id == t.thread_id) db.threads
    || any (λ (r : RuntimeThread). r.task_id == t.task_id) db.threads

event_breaks : Database → RuntimeThreadEvent → Bool
event_breaks db e =
    any (λ (r : RuntimeThreadEvent). r.thread_id == e.thread_id && r.event_key == e.event_key)
      db.events

add_rows : Database → DispatchTask → Database
add_rows db t = record db {
  tasks = t ∷ db.tasks;
  threads = new_thread t.task_id ∷ db.threads;
  events = created_event t.task_id ∷ db.events;
}

-- After a rollback.
read_again : Result (Option DispatchTask) → Result IdempotencyDecision
read_again (fails e) = fails e
read_again (ok none) = fails integrity_error
read_again (ok (some t)) = ok (decision_of t)

insert : Database → DispatchTask → Database × Result IdempotencyDecision
insert now t =
    if t.task_id == ""
    then (now, fails invalid_task)
    else if task_breaks now t
        || thread_breaks now (new_thread t.task_id)
        || event_breaks now (created_event t.task_id)
    then (now, read_again (existing now t.task_id t.idempotency_key))
    else (add_rows now t, ok (new_decision t.task_id t.idempotency_key))

begin_from :
    Result (Option DispatchTask) → Database → DispatchTask → Database × Result IdempotencyDecision
begin_from (fails e) now t = (now, fails e)
begin_from (ok (some found)) now t = (now, ok (decision_of found))
begin_from (ok none) now t = insert now t

pub begin :
    Database
    → Database
    → String
    → ℕ
    → String
    → Option ℕ
    → Option String
    → Database × Result IdempotencyDecision
begin seen now task_id order_id key anomaly_id assignee =
    begin_from (existing seen task_id key) now (new_task task_id order_id key anomaly_id assignee)

update : (DispatchTask → DispatchTask) → String → List DispatchTask → List DispatchTask
update f task_id [] = []
update f task_id (t ∷ ts) =
    let rest = update f task_id ts in if has_task_id task_id t then f t ∷ ts else t ∷ rest

stamp : Bool → ℕ → Option ℕ → Option ℕ
stamp marked now before = if marked then some now else before

-- What `_set_status` writes to the row.
with_status : String → Bool → Bool → ℕ → DispatchTask → DispatchTask
with_status status started completed now t = record t {
  status = status;
  started_at = stamp started now t.started_at;
  completed_at = stamp completed now t.completed_at;
}

-- `_set_status`
pub set_status : Database → String → String → Bool → Bool → ℕ → Database × Result (Unit {0})
set_status db task_id status started completed now =
    if any (has_task_id task_id) db.tasks
    then (
      record db { tasks = update (with_status status started completed now) task_id db.tasks },
      ok tt,
    )
    else (db, fails unknown_task)

pub mark_processing : Database → String → ℕ → Database × Result (Unit {0})
mark_processing db task_id now = set_status db task_id "PROCESSING" true false now

pub mark_terminal : Database → String → String → ℕ → Database × Result (Unit {0})
mark_terminal db task_id status now = set_status db task_id status false true now

look_up : Result (Option DispatchTask) → Result (Option IdempotencyDecision)
look_up (fails e) = fails e
look_up (ok none) = ok none
look_up (ok (some t)) = ok (some (decision_of t))

pub get : Database → String → String → Result (Option IdempotencyDecision)
get db task_id key = look_up (existing db task_id key)
