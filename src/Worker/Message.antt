-- ===== src/Worker/Message.antt =====
-- Queue messages and the worker's results: backend/app/streams/models.py (the fields that the worker
-- reads) and the first part of backend/app/workers/dispatch_worker.py.
use model_lib.Base.{ℕ, String, Bool, false, Option, none, some, List, [], ◌∷◌}
use model_lib.Worker.Effects.{IdempotencyState}

-- Every required field is there: a message that lacks one is refused when it is read.
pub record DispatchTaskPayload : Type 0 where
  pub driver_id : String
  pub vehicle_id : String
  pub route_id : String
  pub anomaly_type : String
  pub anomaly_description : String
  pub vehicle_status : Option String
  pub incident_node_id : Option String
  pub affected_edge_id : Option String

pub record DispatchTaskMessage : Type 0 where
  pub task_id : String
  pub order_id : ℕ
  pub idempotency_key : String
  pub payload : DispatchTaskPayload
  pub correlation_id : Option String

pub record StreamMessage : Type 0 where
  pub message_id : String
  pub task : DispatchTaskMessage
  pub delivery_count : Option ℕ

pub record GraphInput : Type 0 where
  pub task_id : String
  pub order_id : ℕ
  pub driver_id : String
  pub vehicle_id : String
  pub route_id : String
  pub anomaly_type : String
  pub anomaly_description : String
  pub vehicle_status : String
  pub incident_node_id : Option String
  pub affected_edge_ids : List String
  pub correlation_id : Option String

or_normal : Option String → String
or_normal none = "NORMAL"
or_normal (some s) = s

edge_list : Option String → List String
edge_list none = []
edge_list (some e) = e ∷ []

pub task_message_to_graph_input : DispatchTaskMessage → GraphInput
unfolding or_normal edge_list
task_message_to_graph_input task = record {
  task_id = task.task_id;
  order_id = task.order_id;
  driver_id = task.payload.driver_id;
  vehicle_id = task.payload.vehicle_id;
  route_id = task.payload.route_id;
  anomaly_type = task.payload.anomaly_type;
  anomaly_description = task.payload.anomaly_description;
  vehicle_status = or_normal task.payload.vehicle_status;
  incident_node_id = task.payload.incident_node_id;
  affected_edge_ids = edge_list task.payload.affected_edge_id;
  correlation_id = task.correlation_id;
}

pub record WorkerProcessResult : Type 0 where
  pub message_id : String
  pub task_id : String
  pub acknowledged : Bool
  pub terminal_status : Option String
  pub requires_manual_review : Bool
  pub error_code : Option String
  pub delivery_count : Option ℕ
  pub retried : Bool
  pub moved_to_dlq : Bool
  pub backoff_ms : Option ℕ
  pub idempotency_state : Option IdempotencyState
  pub duplicate_skipped : Bool
  pub lock_acquired : Option Bool
  pub reconciled : Bool

-- A result with the default values behind the first six fields.
abbrev pub result :
    StreamMessage → Bool → Option String → Bool → Option String → WorkerProcessResult
result m acknowledged terminal_status requires_manual_review error_code = record {
  message_id = m.message_id;
  task_id = m.task.task_id;
  acknowledged = acknowledged;
  terminal_status = terminal_status;
  requires_manual_review = requires_manual_review;
  error_code = error_code;
  delivery_count = none;
  retried = false;
  moved_to_dlq = false;
  backoff_ms = none;
  idempotency_state = none;
  duplicate_skipped = false;
  lock_acquired = none;
  reconciled = false;
}

pub data RuntimeThreadStatus : Type 0 where
  running stable overriding terminal : RuntimeThreadStatus

-- The fields of `RuntimeThreadSnapshot` that the worker reads.
pub record RuntimeThreadSnapshot : Type 0 where
  pub thread_id : String
  pub status : RuntimeThreadStatus
  pub current_checkpoint_id : Option String
  pub next_node : Option String

-- What the worker reads of the graph's final state: the code if it is a text, whether the review
-- flag is `True`, and the audit's status (`none` where there is no audit mapping).
pub record FinalState : Type 0 where
  pub error_code : Option String
  pub requires_manual_review : Bool
  pub audit_result : Option (Option String)
