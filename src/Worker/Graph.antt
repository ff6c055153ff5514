-- ===== src/Worker/Graph.antt =====
-- `_process_graph`, `_runtime_thread` of backend/app/workers/dispatch_worker.py: one run of the
-- dispatch graph for a message, and the result that follows from its final state.
pub mod Quiet
use model_lib.Base.{ℕ, String, Bool, true, false, not, ◌&&◌, Option, none, some, [], if◌then◌else◌}
use model_lib.Base.Eq.{◌==◌, nat_eq, string_eq, option_eq}
use model_lib.Worker.Effects.{
  Outcome, returns, raises, TaskEventType, worker_started, task_failed, read_thread,
  reconciled_thread, claimed_node, runner_set_up, graph_ran, Exec, pure, call, attempt, ◌>>=◌, ◌>>◌,
}
use model_lib.Worker.Message.{
  DispatchTaskMessage, StreamMessage, GraphInput, task_message_to_graph_input, WorkerProcessResult,
  result, RuntimeThreadStatus, stable, RuntimeThreadSnapshot, FinalState,
}
use model_lib.Worker.Calls.{Env, terminal_state, publish, acknowledge}

is_stable : RuntimeThreadStatus → Bool
is_stable stable = true
is_stable _ = false

-- `raise BoundaryClaimConflict`: no call is made.
boundary_conflict {ℓ} : {A : Type ℓ} → Exec A
boundary_conflict = (raises, [])

module _ (env : Env) where
  -- A stable thread's next node is claimed before it is resumed.
  claim : RuntimeThreadSnapshot → Option String → Exec RuntimeThreadSnapshot
  unfolding boundary_conflict
  claim t none = boundary_conflict
  claim t (some node) =
      if env.has_thread_repository then call claimed_node env.claim_next_node else boundary_conflict

  run_thread : RuntimeThreadSnapshot → Option String → GraphInput → Exec FinalState
  unfolding claim is_stable
  run_thread t none input = call graph_ran (env.run_new t input)
  run_thread t (some checkpoint) input =
      if is_stable t.status
      then (do claimed ← claim t t.next_node; call graph_ran (env.resume claimed))
      else call graph_ran (env.resume t)

  run_graph_alone : GraphInput → Exec FinalState
  run_graph_alone input =
      if env.has_event_broker && env.graph_streams
      then call graph_ran (env.stream input)
      else call graph_ran (env.ainvoke input)

  -- The body of the `try`.
  run_graph : Option RuntimeThreadSnapshot → GraphInput → Exec FinalState
  unfolding run_thread run_graph_alone
  run_graph none input = run_graph_alone input
  run_graph (some t) input =
      if env.has_runner
      then (do call runner_set_up env.runner_setup; run_thread t t.current_checkpoint_id input)
      else run_graph_alone input

  is_paused : Option RuntimeThreadSnapshot → Bool
  unfolding is_stable
  is_paused none = false
  is_paused (some t) = is_stable t.status && not (t.next_node == none)

  report_unfinished : StreamMessage → Bool → Option String → Exec WorkerProcessResult
  report_unfinished m manual code = do
    publish env task_failed
    pure (result m false none manual code)

  paused_or_unfinished :
      StreamMessage → Bool → Option String → Option RuntimeThreadSnapshot → Exec WorkerProcessResult
  unfolding report_unfinished is_paused
  paused_or_unfinished m manual code thread =
      if is_paused thread
      then pure (result m false none false (some "RUNTIME_THREAD_PAUSED"))
      else report_unfinished m manual code

  -- A final state without a terminal status: a paused thread, or a failure.
  conclude_unfinished : StreamMessage → Bool → Option String → Exec WorkerProcessResult
  unfolding paused_or_unfinished report_unfinished
  conclude_unfinished m manual code =
      if env.has_thread_repository
      then (do
        thread ← call read_thread env.thread_after_graph
        paused_or_unfinished m manual code thread)
      else report_unfinished m manual code

  conclude : StreamMessage → Bool → Option String → Bool → Option String → Exec WorkerProcessResult
  unfolding conclude_unfinished
  conclude m acknowledge_terminal none manual code = conclude_unfinished m manual code
  conclude m acknowledge_terminal (some status) manual code = do
    done ← (if acknowledge_terminal then acknowledge env else pure false)
    pure (result m done (some status) manual code)

  after_graph : StreamMessage → Bool → Option FinalState → Exec WorkerProcessResult
  unfolding conclude
  after_graph m acknowledge_terminal none = do
    publish env task_failed
    pure (result m false (some "FAILED") false (some "GRAPH_EXECUTION_ERROR"))
  after_graph m acknowledge_terminal (some s) =
      let (status, manual, code) = terminal_state s in
      conclude m acknowledge_terminal status manual code

  unfoldable pub process_graph :
      StreamMessage → Bool → Option RuntimeThreadSnapshot → Exec WorkerProcessResult
  unfolding after_graph run_graph
  process_graph m acknowledge_terminal thread = do
    publish env worker_started
    s ← attempt (run_graph thread (task_message_to_graph_input m.task))
    after_graph m acknowledge_terminal s

  reconciled : Option RuntimeThreadSnapshot → Exec (Option RuntimeThreadSnapshot)
  reconciled none = pure none
  reconciled (some t) =
      if env.has_reconciler then call reconciled_thread (env.reconcile_thread t) else pure (some t)

  -- `_runtime_thread`
  unfoldable pub runtime_thread : Exec (Option RuntimeThreadSnapshot)
  unfolding reconciled
  runtime_thread =
      if env.has_thread_repository
      then (do t ← call read_thread env.thread_at_start; reconciled t)
      else pure none
