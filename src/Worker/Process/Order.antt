-- ===== src/Worker/Process/Order.antt =====
-- The order of the effects of one message.
use model_lib.Base.{
  String, ◌≡◌, refl, Bool, true, false, ◌&&◌, Option, none, some, ◌∷◌, Bool-cases, inl, inr, arith,
}
use model_lib.Base.Eq.{◌==◌, string_eq, option_eq, ==_iff}
use model_lib.Worker.Effects.{
  Outcome, returns, raises, IdempotencyState, new, in_progress, terminal, Effect, lock_requested,
  dispatch_published, breakdown_handled, acknowledged, began, ledger_terminal, reconciled_execution,
  marked_processing, failed, Exec, call, call_with, ◌>>=◌,
}
use model_lib.Worker.Message.{StreamMessage, WorkerProcessResult, RuntimeThreadSnapshot}
use model_lib.Worker.Emits.{Emits, Emits-mono, Emits-attempt, Emits-call}
use model_lib.Worker.Calls.{
  Env, IdempotencyDecision, approved, TerminalThread, absent, is_final, publish_terminal,
  acknowledge, mark_runtime_terminal, publish_runtime_terminal, auto_publish,
  handle_vehicle_breakdown,
}
use model_lib.Worker.Graph.{process_graph, runtime_thread}
use model_lib.Worker.Graph.Quiet.{
  GraphEffect, process_graph-GraphEffect, runtime_thread-GraphEffect,
}
use model_lib.Worker.Process.Phases.{
  Duties, running, recorded, Ordered, Calm, Passive, Ordered-ensuring, Ordered-bind,
  Ordered-bind-Passive,
}
use model_lib.Worker.Process.{
  or_completed, ack_terminal_replay, replay_terminal, replay_reconciled, finish_rescued,
  finish_published, finish, settle, run_with, execute, resume_in_progress, by_decision, locked_body,
  with_lock, process_guarded,
}

abbrev pub status_before : Outcome IdempotencyDecision → Option String
status_before raises = none
status_before (returns d) = d.existing_status

abbrev pub duties : Env → StreamMessage → Duties
duties env m = record {
  publishes = env.has_publication;
  rescues =
      env.has_breakdown_handler && (env.upper m.task.payload.anomaly_type == "VEHICLE_BREAKDOWN");
  began_approved = status_before env.begin == approved;
}

or_completed-approved : (s : Option String) → (or_completed s == "APPROVED") ≡ (s == approved)
or_completed-approved none = refl
or_completed-approved (some s) = elim (Bool-cases (s == "")) [
  | inl e ↦ rw ((==_iff s "").0 e) refl
  | inr e ↦ rw e refl
]

module _ (d : Duties) where
  Ordered-recording {ℓ} :
      {A : Type ℓ} (s : Option String) (o : Outcome (Unit {0})) (f : Unit {0} → Exec A)
      → Ordered d (recorded (s == approved) false false) (f tt).1
      → Ordered d running (call (ledger_terminal (or_completed s)) o >>= f).1
  Ordered-recording s (returns tt) f h = rw (or_completed-approved s) (tt, h)
  Ordered-recording s raises f h = (tt, tt)

module _ (env : Env) (m : StreamMessage) where
  ack_terminal_replay-Ordered :
      (s : Option String) (b : Bool)
      → Ordered
          (duties env m)
          (recorded (s == approved) false false)
          (ack_terminal_replay env m s b).1
  unfolding ack_terminal_replay auto_publish handle_vehicle_breakdown publish_terminal acknowledge
  ack_terminal_replay-Ordered s b = ground arith

  publish-finish-Ordered :
      (r : WorkerProcessResult) (st : IdempotencyState) (t : TerminalThread)
      → Ordered
          (duties env m)
          (recorded (r.terminal_status == approved) false false)
          (auto_publish env r.terminal_status >>= finish_published env m r st t).1
  unfolding finish_published finish_rescued auto_publish handle_vehicle_breakdown publish_terminal
      acknowledge publish_runtime_terminal
  publish-finish-Ordered r st t = ground arith

  finish-Ordered :
      (r : WorkerProcessResult) (st : IdempotencyState) (t : TerminalThread)
      → Ordered (duties env m) running (finish env m r st t).1
  unfolding finish
  finish-Ordered r st absent = tt
  finish-Ordered r st t =
      Ordered-recording (duties env m) r.terminal_status env.mark_terminal _
        (publish-finish-Ordered r st t)

GraphEffect-Calm : (e : Effect) → GraphEffect e → Calm e
GraphEffect-Calm dispatch_published h = h
GraphEffect-Calm breakdown_handled h = h
GraphEffect-Calm acknowledged h = h
GraphEffect-Calm (began st) h = h
GraphEffect-Calm (ledger_terminal s) h = h
GraphEffect-Calm (failed e) h = GraphEffect-Calm e h
GraphEffect-Calm _ h = tt

module _ (env : Env) (m : StreamMessage) where
  mark_runtime_terminal-Calm : (s : String) → Emits Calm (mark_runtime_terminal env s)
  unfolding mark_runtime_terminal
  mark_runtime_terminal-Calm s = record { at = ground arith }

  mark_runtime_terminal-Passive : (s : String) → Emits Passive (mark_runtime_terminal env s)
  unfolding mark_runtime_terminal
  mark_runtime_terminal-Passive s = record { at = ground arith }

  publish_terminal-Calm : (s : Option String) → Emits Calm (publish_terminal env s)
  unfolding publish_terminal
  publish_terminal-Calm s = record { at = ground arith }

  settle_branch :
      (st : IdempotencyState) (r : WorkerProcessResult) (b : Bool)
      → is_final r.terminal_status ≡ b
      → Ordered (duties env m) running (settle env m st r).1
  unfolding settle
  settle_branch st r false e =
      rw (e, settle) (Ordered-bind _ _ _ (publish_terminal-Calm r.terminal_status) (λ u. tt))
  settle_branch st r true e =
      rw (e, settle) (Ordered-bind _ _ _ (mark_runtime_terminal-Calm _) (finish-Ordered env m r st))

  process_graph-Calm : (t : Option RuntimeThreadSnapshot) → Emits Calm (process_graph env m false t)
  process_graph-Calm t =
      Emits-mono (process_graph env m false t) GraphEffect-Calm (process_graph-GraphEffect env m t)

  run_with-Ordered :
      (st : IdempotencyState) (t : Option (Option RuntimeThreadSnapshot))
      → Ordered (duties env m) running (run_with env m st t).1
  unfolding run_with
  run_with-Ordered st none = tt
  run_with-Ordered st (some t) =
      Ordered-bind _ _ _ (process_graph-Calm t) (λ r. settle_branch st r _ refl)

  execute-Ordered : (st : IdempotencyState) → Ordered (duties env m) running (execute env m st).1
  unfolding execute
  execute-Ordered st =
      Ordered-bind _ _ _
        (Emits-attempt (runtime_thread env)
          (Emits-mono (runtime_thread env) GraphEffect-Calm (runtime_thread-GraphEffect env)))
        (run_with-Ordered st)

  publish-replay-Ordered :
      (s : Option String) (t : TerminalThread) (reconciled : Bool)
      → Ordered
          (duties env m)
          (recorded (s == approved) false false)
          (publish_runtime_terminal env t >>= λ u. ack_terminal_replay env m s reconciled).1
  unfolding publish_runtime_terminal
  publish-replay-Ordered s t reconciled =
      ground (arith, ack_terminal_replay-Ordered env m s reconciled)

  replay_reconciled-Ordered :
      (s : Option String) (t : TerminalThread)
      → Ordered (duties env m) running (replay_reconciled env m s t).1
  unfolding replay_reconciled
  replay_reconciled-Ordered s absent = tt
  replay_reconciled-Ordered s t =
      Ordered-recording (duties env m) s env.mark_terminal _ (publish-replay-Ordered s t true)

  replay_terminal-Ordered :
      (s : Option String) (t : TerminalThread)
      → Ordered (duties env m) (recorded (s == approved) false false) (replay_terminal env m s t).1
  unfolding replay_terminal
  replay_terminal-Ordered s absent = tt
  replay_terminal-Ordered s t = publish-replay-Ordered s t false

  resume_branch :
      (s : Option String) (b : Bool)
      → is_final s ≡ b
      → Ordered (duties env m) running (resume_in_progress env m s).1
  unfolding resume_in_progress
  resume_branch s false e = rw (e, resume_in_progress) (execute-Ordered in_progress)
  resume_branch s true e =
      rw (e, resume_in_progress)
        (Ordered-bind-Passive _ running _ _ (mark_runtime_terminal-Passive _)
          (replay_reconciled-Ordered s))

  by_decision-Ordered :
      (d : IdempotencyDecision)
      → status_before env.begin ≡ d.existing_status
      → (state : IdempotencyState)
      → Ordered (duties env m) running (began state ∷ (by_decision env m state d.existing_status).1)
  unfolding by_decision
  by_decision-Ordered d e terminal = (
    tt,
    rw e (
        Ordered-bind-Passive _ _ _ _ (mark_runtime_terminal-Passive _)
          (replay_terminal-Ordered d.existing_status)),
  )
  by_decision-Ordered d e in_progress =
      Ordered-bind _ (call reconciled_execution env.reconcile_existing_execution) _
        (Emits-call _ _ tt tt) (λ q. resume_branch q _ refl)
  by_decision-Ordered d e new =
      Ordered-bind _ (call marked_processing env.mark_processing) _ (Emits-call _ _ tt tt)
        (λ u. execute-Ordered new)

  begun-Ordered :
      (o : Outcome IdempotencyDecision)
      → status_before env.begin ≡ status_before o
      → Ordered
          (duties env m)
          running
          (call_with (λ (d : IdempotencyDecision). began d.state) o >>= λ d.
            by_decision env m d.state d.existing_status).1
  begun-Ordered (returns d) e = by_decision-Ordered d e d.state
  begun-Ordered raises e = tt

  with_lock-Ordered : (b : Bool) → Ordered (duties env m) running (with_lock env m b).1
  unfolding with_lock locked_body
  with_lock-Ordered true =
      Ordered-ensuring _ (locked_body env m) env.release (begun-Ordered env.begin refl)
  with_lock-Ordered false = tt

-- Whatever the collaborators answer, the effects of one message are in order. The graph runs, and the
-- ledger's terminal status is written, only while the ledger is not known to hold one. The dispatch
-- is published only when the ledger holds an approved status, and the vehicle is rescued only then
-- and after the publication, if there is a service for it. The message is acknowledged only when the
-- ledger holds a terminal status and, if that is approved, the dispatch has been published and the
-- broken vehicle rescued wherever there is a service for it; after it none of these effects comes.
pub process_guarded-Ordered :
    (env : Env) (m : StreamMessage) → Ordered (duties env m) running (process_guarded env m).1
unfolding process_guarded
process_guarded-Ordered env m =
    Ordered-bind _ (call lock_requested env.acquire) _ (Emits-call _ _ tt tt)
      (with_lock-Ordered env m)
