-- ===== src/Worker/Process.antt =====
-- `process_message` and `_ack_terminal_replay` of backend/app/workers/dispatch_worker.py: one message
-- of the queue, under the execution lock and the idempotency ledger. The proofs are in the modules
-- below.
pub mod Lock
pub mod Order
pub mod Phases
use model_lib.Base.{String, Bool, true, false, not, ◌&&◌, ◌||◌, Option, none, some, if◌then◌else◌}
use model_lib.Base.Eq.{◌==◌, string_eq, option_eq}
use model_lib.Worker.Effects.{
  IdempotencyState, new, in_progress, terminal, lock_requested, lock_released, reconciled_execution,
  marked_processing, began, ledger_terminal, Exec, pure, call, call_with, attempt, ensuring, ◌>>=◌,
  ◌>>◌,
}
use model_lib.Worker.Message.{StreamMessage, WorkerProcessResult, result, RuntimeThreadSnapshot}
use model_lib.Worker.Calls.{
  IdempotencyDecision, Env, review_required, is_final, TerminalThread, absent, publish_terminal,
  acknowledge, mark_runtime_terminal, publish_runtime_terminal, auto_publish,
  handle_vehicle_breakdown,
}
use model_lib.Worker.Graph.{process_graph, runtime_thread}

abbrev pub or_completed : Option String → String
or_completed none = "COMPLETED"
or_completed (some s) = if s == "" then "COMPLETED" else s

-- `replace(result, idempotency_state=..., lock_acquired=True)`
abbrev pub under_lock : WorkerProcessResult → IdempotencyState → WorkerProcessResult
under_lock r state = record r { idempotency_state = some state; lock_acquired = some true }

runtime_terminal_failure : StreamMessage → IdempotencyState → WorkerProcessResult
runtime_terminal_failure m state =
    under_lock (result m false none false (some "RUNTIME_THREAD_TERMINAL_ERROR")) state

module _ (env : Env) where
  replay_result : StreamMessage → Option String → Bool → WorkerProcessResult
  replay_result m status reconciled =
      record (under_lock (result m false status (status == review_required) none) terminal) {
        duplicate_skipped = true;
        reconciled = reconciled;
      }

  -- `_ack_terminal_replay` after a failed publication or rescue.
  replay_failure : StreamMessage → Option String → Bool → String → WorkerProcessResult
  replay_failure m status reconciled code =
      record (under_lock (result m false status false (some code)) terminal) {
        reconciled = reconciled;
      }

  replay_rescued : StreamMessage → Option String → Bool → Option String → Exec WorkerProcessResult
  unfolding replay_failure replay_result
  replay_rescued m status reconciled (some code) = pure (replay_failure m status reconciled code)
  replay_rescued m status reconciled none = do
    publish_terminal env status
    done ← acknowledge env
    pure (record (replay_result m status reconciled) { acknowledged = done })

  replay_published : StreamMessage → Option String → Bool → Option String → Exec WorkerProcessResult
  unfolding replay_failure replay_rescued
  replay_published m status reconciled (some code) = pure (replay_failure m status reconciled code)
  replay_published m status reconciled none = do
    code ← handle_vehicle_breakdown env m.task.payload status
    replay_rescued m status reconciled code

  ack_terminal_replay : StreamMessage → Option String → Bool → Exec WorkerProcessResult
  unfolding replay_published
  ack_terminal_replay m status reconciled = do
    code ← auto_publish env status
    replay_published m status reconciled code

  -- The ledger already holds a terminal status.
  replay_terminal : StreamMessage → Option String → TerminalThread → Exec WorkerProcessResult
  unfolding ack_terminal_replay runtime_terminal_failure
  replay_terminal m status absent = pure (runtime_terminal_failure m terminal)
  replay_terminal m status thread = do
    publish_runtime_terminal env thread
    ack_terminal_replay m status false

  -- The ledger is behind an execution that has ended.
  replay_reconciled : StreamMessage → Option String → TerminalThread → Exec WorkerProcessResult
  unfolding ack_terminal_replay runtime_terminal_failure
  replay_reconciled m status absent = pure (runtime_terminal_failure m in_progress)
  replay_reconciled m status thread = do
    call (ledger_terminal (or_completed status)) env.mark_terminal
    publish_runtime_terminal env thread
    ack_terminal_replay m status true

  finish_rescued :
      WorkerProcessResult
      → IdempotencyState
      → TerminalThread
      → Option String
      → Exec WorkerProcessResult
  finish_rescued r state thread (some code) =
      pure (under_lock (record r { acknowledged = false; error_code = some code }) state)
  finish_rescued r state thread none = do
    publish_runtime_terminal env thread
    publish_terminal env r.terminal_status
    done ← acknowledge env
    pure (under_lock (record r { acknowledged = done }) state)

  finish_published :
      StreamMessage
      → WorkerProcessResult
      → IdempotencyState
      → TerminalThread
      → Option String
      → Exec WorkerProcessResult
  unfolding finish_rescued
  finish_published m r state thread (some code) =
      pure (under_lock (record r { acknowledged = false; error_code = some code }) state)
  finish_published m r state thread none = do
    code ← handle_vehicle_breakdown env m.task.payload r.terminal_status
    finish_rescued r state thread code

  -- A run that ended in a final status.
  finish :
      StreamMessage
      → WorkerProcessResult
      → IdempotencyState
      → TerminalThread
      → Exec WorkerProcessResult
  unfolding finish_published runtime_terminal_failure
  finish m r state absent = pure (runtime_terminal_failure m state)
  finish m r state thread = do
    call (ledger_terminal (or_completed r.terminal_status)) env.mark_terminal
    code ← auto_publish env r.terminal_status
    finish_published m r state thread code

  -- What follows the graph's run.
  settle : StreamMessage → IdempotencyState → WorkerProcessResult → Exec WorkerProcessResult
  unfolding finish
  settle m state r =
      if not (is_final r.terminal_status)
      then (do publish_terminal env r.terminal_status; pure (under_lock r state))
      else (do
        thread ← mark_runtime_terminal env (or_completed r.terminal_status)
        finish m r state thread)

  run_with :
      StreamMessage
      → IdempotencyState
      → Option (Option RuntimeThreadSnapshot)
      → Exec WorkerProcessResult
  unfolding settle
  run_with m state none =
      pure
        (under_lock (result m false none false (some "RUNTIME_THREAD_RECONCILIATION_ERROR")) state)
  run_with m state (some thread) = do r ← process_graph env m false thread; settle m state r

  execute : StreamMessage → IdempotencyState → Exec WorkerProcessResult
  unfolding run_with
  execute m state = do thread ← attempt (runtime_thread env); run_with m state thread

  resume_in_progress : StreamMessage → Option String → Exec WorkerProcessResult
  unfolding execute replay_reconciled
  resume_in_progress m status =
      if is_final status
      then (do
        thread ← mark_runtime_terminal env (or_completed status)
        replay_reconciled m status thread)
      else execute m in_progress

  by_decision : StreamMessage → IdempotencyState → Option String → Exec WorkerProcessResult
  unfolding execute resume_in_progress replay_terminal
  by_decision m terminal existing = do
    thread ← mark_runtime_terminal env (or_completed existing)
    replay_terminal m existing thread
  by_decision m in_progress existing = do
    status ← call reconciled_execution env.reconcile_existing_execution
    resume_in_progress m status
  by_decision m new existing = do call marked_processing env.mark_processing; execute m new

  -- The body of the `try` that the lock's release ends.
  locked_body : StreamMessage → Exec WorkerProcessResult
  unfolding by_decision
  locked_body m = do
    d ← call_with (λ (d : IdempotencyDecision). began d.state) env.begin
    by_decision m d.state d.existing_status

  with_lock : StreamMessage → Bool → Exec WorkerProcessResult
  unfolding locked_body
  with_lock m true = ensuring (locked_body m) (call lock_released env.release)
  with_lock m false =
      pure (record (result m false (some "LOCKED") false none) { lock_acquired = some false })

  -- `process_message` of a worker that has a ledger and an execution lock.
  unfoldable pub process_guarded : StreamMessage → Exec WorkerProcessResult
  unfolding with_lock
  process_guarded m = do acquired ← call lock_requested env.acquire; with_lock m acquired
