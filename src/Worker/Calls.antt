-- ===== src/Worker/Calls.antt =====
-- What the worker asks of its collaborators, with their answers as an argument, and the small
-- procedures of `DispatchWorker` in backend/app/workers/dispatch_worker.py around single calls.
use model_lib.Base.{
  ℕ, String, Bool, true, false, not, ◌&&◌, ◌||◌, Option, none, some, if◌then◌else◌,
}
use model_lib.Base.Eq.{◌==◌, nat_eq, string_eq, option_eq}
use model_lib.Worker.Effects.{
  Outcome, IdempotencyState, TaskEventType, task_completed, task_review_required, acknowledged,
  thread_terminal_published, dispatch_published, breakdown_handled, read_thread, thread_terminal,
  event_published, Exec, pure, call, attempt, ◌>>=◌, ◌>>◌,
}
use model_lib.Worker.Message.{DispatchTaskPayload, GraphInput, RuntimeThreadSnapshot, FinalState}

pub record IdempotencyDecision : Type 0 where
  pub state : IdempotencyState
  pub existing_status : Option String

-- Which collaborators the worker was given, and what each call answers. A thread is read at three
-- places of one pass.
pub record Env : Type 0 where
  pub has_lock : Bool
  pub has_ledger : Bool
  pub acquire : Outcome Bool
  pub release : Outcome Bool
  pub begin : Outcome IdempotencyDecision
  pub reconcile_existing_execution : Outcome (Option String)
  pub mark_processing : Outcome (Unit {0})
  pub mark_terminal : Outcome (Unit {0})
  pub has_thread_repository : Bool
  pub thread_at_start : Outcome (Option RuntimeThreadSnapshot)
  pub thread_after_graph : Outcome (Option RuntimeThreadSnapshot)
  pub thread_at_end : Outcome (Option RuntimeThreadSnapshot)
  pub mark_thread_terminal : Outcome RuntimeThreadSnapshot
  pub claim_next_node : Outcome RuntimeThreadSnapshot
  pub has_reconciler : Bool
  pub reconcile_thread : RuntimeThreadSnapshot → Outcome (Option RuntimeThreadSnapshot)
  pub has_runner : Bool
  pub runner_setup : Outcome (Unit {0})
  pub run_new : RuntimeThreadSnapshot → GraphInput → Outcome FinalState
  pub resume : RuntimeThreadSnapshot → Outcome FinalState
  pub publish_thread_terminal : Outcome (Unit {0})
  pub has_event_broker : Bool
  pub publish_event : TaskEventType → Outcome (Unit {0})
  pub graph_streams : Bool
  pub stream : GraphInput → Outcome FinalState
  pub ainvoke : GraphInput → Outcome FinalState
  pub has_publication : Bool
  pub publish_automatically : Outcome (Unit {0})
  pub has_breakdown_handler : Bool
  pub handle_approved_breakdown : Outcome (Unit {0})
  pub upper : String → String
  pub ack : Outcome ℕ
  pub move_to_dlq : Outcome (Unit {0})
  pub sleep : Outcome (Unit {0})

abbrev pub approved : Option String
approved = some "APPROVED"

abbrev pub review_required : Option String
review_required = some "REVIEW_REQUIRED"

-- `status in {"APPROVED", "REVIEW_REQUIRED"}`
pub is_final : Option String → Bool
is_final s = s == approved || s == review_required

-- `_terminal_state`
read_audit : Option (Option String) → Bool → Option String × Bool
read_audit none manual = (none, manual)
read_audit (some status) manual =
    if status == approved
    then (approved, manual)
    else if status == review_required && manual
    then (review_required, true)
    else (none, manual)

unfoldable pub terminal_state : FinalState → Option String × Bool × Option String
unfolding read_audit
terminal_state s =
    if s.error_code == some "AUDIT_PERSISTENCE_ERROR"
    then (none, s.requires_manual_review, s.error_code)
    else let (status, manual) = read_audit s.audit_result s.requires_manual_review in
      (status, manual, s.error_code)

-- `_mark_runtime_terminal`: a snapshot, `True` or `False`, or `None`.
pub data TerminalThread : Type 0 where
  snapshot : RuntimeThreadSnapshot → TerminalThread
  flag : Bool → TerminalThread
  absent : TerminalThread

module _ (env : Env) where
  -- `_publish` swallows every exception.
  unfoldable pub publish : TaskEventType → Exec (Unit {0})
  publish t =
      if env.has_event_broker
      then (do attempt (call (event_published t) (env.publish_event t)); pure tt)
      else pure tt

  unfoldable pub publish_terminal : Option String → Exec (Unit {0})
  unfolding publish
  publish_terminal status =
      if status == approved
      then publish task_completed
      else if status == review_required
      then publish task_review_required
      else pure tt

  -- `await self._queue.ack(message_id) == 1`
  unfoldable pub acknowledge : Exec Bool
  acknowledge = do n ← call acknowledged env.ack; pure (n == 1)

  to_terminal_thread : Option RuntimeThreadSnapshot → TerminalThread
  to_terminal_thread none = flag false
  to_terminal_thread (some s) = snapshot s

  mark_found : Option RuntimeThreadSnapshot → String → Exec TerminalThread
  mark_found none status = pure absent
  mark_found (some t) status = do
    r ← attempt (call (thread_terminal status) env.mark_thread_terminal)
    pure (to_terminal_thread r)

  -- `_mark_runtime_terminal`
  unfoldable pub mark_runtime_terminal : String → Exec TerminalThread
  unfolding mark_found to_terminal_thread
  mark_runtime_terminal status =
      if env.has_thread_repository
      then (do t ← call read_thread env.thread_at_end; mark_found t status)
      else pure (flag true)

  -- `_publish_runtime_terminal`
  unfoldable pub publish_runtime_terminal : TerminalThread → Exec (Unit {0})
  publish_runtime_terminal (snapshot t) =
      if env.has_runner then call thread_terminal_published env.publish_thread_terminal else pure tt
  publish_runtime_terminal _ = pure tt

  error_unless : String → Option (Unit {0}) → Option String
  error_unless code none = some code
  error_unless code (some u) = none

  -- `_auto_publish`
  unfoldable pub auto_publish : Option String → Exec (Option String)
  unfolding error_unless
  auto_publish status =
      if not (status == approved) || not env.has_publication then pure none else (do
        r ← attempt (call dispatch_published env.publish_automatically)
        pure (error_unless "AUTO_PUBLICATION_ERROR" r))

  -- `_handle_vehicle_breakdown`
  unfoldable pub handle_vehicle_breakdown :
      DispatchTaskPayload → Option String → Exec (Option String)
  unfolding error_unless
  handle_vehicle_breakdown payload status =
      if not (status == approved)
        || (not env.has_breakdown_handler
            || not (env.upper payload.anomaly_type == "VEHICLE_BREAKDOWN"))
      then pure none
      else (do
        r ← attempt (call breakdown_handled env.handle_approved_breakdown)
        pure (error_unless "VEHICLE_RESCUE_ORCHESTRATION_ERROR" r))
