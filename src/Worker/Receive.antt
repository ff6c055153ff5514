-- ===== src/Worker/Receive.antt =====
-- `process_message` for every set of collaborators, `_execution_is_active` and `_recover_message` of
-- backend/app/workers/dispatch_worker.py: what the worker does with a message that it reads, and
-- with one that it takes over from the pending list.
pub mod Limit
use model_lib.Base.{
  ℕ, String, Bool, true, false, not, ◌&&◌, ◌||◌, Option, none, some, if◌then◌else◌,
}
use model_lib.Worker.Effects.{
  task_failed, lock_requested, lock_released, ledger_terminal, dead_lettered, slept, Exec, pure,
  call, ◌>>=◌, ◌>>◌,
}
use model_lib.Worker.Message.{StreamMessage, WorkerProcessResult, result}
use model_lib.Worker.Retry.{RetryPolicy, should_retry, backoff_ms}
use model_lib.Worker.Calls.{
  Env, is_final, TerminalThread, absent, publish, publish_terminal, acknowledge,
  mark_runtime_terminal, publish_runtime_terminal, auto_publish, handle_vehicle_breakdown,
}
use model_lib.Worker.Graph.{process_graph}
use model_lib.Worker.Process.{process_guarded}

-- `replace(result, acknowledged=False, error_code=...)`
abbrev pub refused : WorkerProcessResult → String → WorkerProcessResult
refused r code = record r { acknowledged = false; error_code = some code }

module _ (env : Env) where
  unguarded_rescued : WorkerProcessResult → Option String → Exec WorkerProcessResult
  unguarded_rescued r (some code) = pure (refused r code)
  unguarded_rescued r none = do
    done ← acknowledge env
    publish_terminal env r.terminal_status
    pure (record r { acknowledged = done })

  unguarded_published :
      StreamMessage → WorkerProcessResult → Option String → Exec WorkerProcessResult
  unguarded_published m r (some code) = pure (refused r code)
  unguarded_published m r none = do
    code ← handle_vehicle_breakdown env m.task.payload r.terminal_status
    unguarded_rescued r code

  post_process : StreamMessage → Bool → WorkerProcessResult → Exec WorkerProcessResult
  post_process m requires_post_processing r =
      if requires_post_processing && is_final r.terminal_status
      then (do code ← auto_publish env r.terminal_status; unguarded_published m r code)
      else (do publish_terminal env r.terminal_status; pure r)

  -- `process_message` of a worker without a ledger or without a lock.
  process_unguarded : StreamMessage → Exec WorkerProcessResult
  process_unguarded m =
      let requires = env.has_publication || env.has_breakdown_handler in
      process_graph env m (not requires) none >>= post_process m requires

  pub process_message : StreamMessage → Exec WorkerProcessResult
  process_message m =
      if not env.has_ledger || not env.has_lock then process_unguarded m else process_guarded env m

  release_probe : Bool → Exec Bool
  release_probe false = pure true
  release_probe true = do call lock_released env.release; pure false

  -- `_execution_is_active`
  execution_is_active : Exec Bool
  execution_is_active =
      if env.has_lock then call lock_requested env.acquire >>= release_probe else pure false

  record_dead : Exec (Unit {0})
  record_dead = if env.has_ledger then call (ledger_terminal "DLQ") env.mark_terminal else pure tt

  bury : StreamMessage → ℕ → TerminalThread → Exec WorkerProcessResult
  bury m count absent =
      pure (record (result m false none false (some "RUNTIME_THREAD_TERMINAL_ERROR")) {
        delivery_count = some count;
      })
  bury m count thread = do
    record_dead
    publish_runtime_terminal env thread
    publish env task_failed
    call dead_lettered env.move_to_dlq
    pure (record (result m true (some "DLQ") false (some "MAX_DELIVERY_ATTEMPTS_EXCEEDED")) {
      delivery_count = some count;
      moved_to_dlq = true;
    })

  -- The delivery attempts are used up.
  give_up : StreamMessage → ℕ → Bool → Exec WorkerProcessResult
  give_up m count true = pure (record (result m false (some "LOCKED") false none) {
    delivery_count = some count;
    lock_acquired = some false;
  })
  give_up m count false = do thread ← mark_runtime_terminal env "DLQ"; bury m count thread

  retry : RetryPolicy → StreamMessage → ℕ → Exec WorkerProcessResult
  retry p m count = do
    call (slept (backoff_ms p count)) env.sleep
    r ← process_message m
    pure (record r {
      delivery_count = some count;
      retried = true;
      backoff_ms = some (backoff_ms p count);
    })

  recover_counted : RetryPolicy → StreamMessage → Option ℕ → Exec WorkerProcessResult
  recover_counted p m none = pure (result m false none false (some "DELIVERY_COUNT_UNAVAILABLE"))
  recover_counted p m (some count) =
      if not (should_retry p count)
      then execution_is_active >>= give_up m count
      else retry p m count

  -- `_recover_message`
  pub recover_message : RetryPolicy → StreamMessage → Exec WorkerProcessResult
  recover_message p m = recover_counted p m m.delivery_count
