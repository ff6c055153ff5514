-- ===== src/Worker/Tests.antt =====
-- Runs of the worker on concrete messages.
use model_lib.Base.{◌≡◌, true, false, none, some, min}
use model_lib.Worker.Effects.{returns, new}
use model_lib.Worker.Message.{StreamMessage, RuntimeThreadSnapshot, running, FinalState}
use model_lib.Worker.Retry.{RetryPolicy, backoff_ms, doubled, backoff_ms_doubles}
use model_lib.Worker.Calls.{Env}
use model_lib.Worker.Process.{process_guarded}
use model_lib.Worker.Process.Lock.{LockTrace, process_guarded-LockTrace}
use model_lib.Worker.Process.Phases.{Ordered, running}
use model_lib.Worker.Process.Order.{duties, process_guarded-Ordered}

abbrev thread : RuntimeThreadSnapshot
thread = record {
  thread_id = "thread-1";
  status = running;
  current_checkpoint_id = none;
  next_node = none;
}

abbrev approved_state : FinalState
approved_state = record {
  error_code = none;
  requires_manual_review = false;
  audit_result = some (some "APPROVED");
}

abbrev working : Env
working = record {
  has_lock = true;
  has_ledger = true;
  acquire = returns true;
  release = returns true;
  begin = returns (record { state = new; existing_status = none });
  reconcile_existing_execution = returns none;
  mark_processing = returns tt;
  mark_terminal = returns tt;
  has_thread_repository = true;
  thread_at_start = returns (some thread);
  thread_after_graph = returns (some thread);
  thread_at_end = returns (some thread);
  mark_thread_terminal = returns thread;
  claim_next_node = returns thread;
  has_reconciler = false;
  reconcile_thread = λ t. returns (some t);
  has_runner = true;
  runner_setup = returns tt;
  run_new = λ t input. returns approved_state;
  resume = λ t. returns approved_state;
  publish_thread_terminal = returns tt;
  has_event_broker = true;
  publish_event = λ t. returns tt;
  graph_streams = true;
  stream = λ input. returns approved_state;
  ainvoke = λ input. returns approved_state;
  has_publication = true;
  publish_automatically = returns tt;
  has_breakdown_handler = true;
  handle_approved_breakdown = returns tt;
  upper = λ s. s;
  ack = returns 1;
  move_to_dlq = returns tt;
  sleep = returns tt;
}

abbrev message : StreamMessage
message = record {
  message_id = "1-0";
  task = record {
    task_id = "task-1";
    order_id = 7;
    idempotency_key = "key-1";
    payload = record {
      driver_id = "driver-1";
      vehicle_id = "vehicle-1";
      route_id = "route-1";
      anomaly_type = "VEHICLE_BREAKDOWN";
      anomaly_description = "engine";
      vehicle_status = none;
      incident_node_id = none;
      affected_edge_id = none;
    };
    correlation_id = none;
  };
  delivery_count = some 3;
}

abbrev policy : RetryPolicy
policy = record { max_delivery_attempts = 4; base_delay_ms = 100; max_delay_ms = 1000 }

process_guarded-LockTrace_example :
    LockTrace working (returns true) (process_guarded working message).1
process_guarded-LockTrace_example = process_guarded-LockTrace working message

process_guarded-Ordered_example :
    Ordered (duties working message) running (process_guarded working message).1
process_guarded-Ordered_example = process_guarded-Ordered working message

backoff_ms_doubles_example :
    (backoff_ms policy 1 ≡ min 100 1000)
    × (backoff_ms policy 5 ≡ doubled policy (backoff_ms policy 4))
backoff_ms_doubles_example = backoff_ms_doubles policy 3
