-- ===== src/Worker/Process/Lock.antt =====
-- The execution lock around one message.
use model_lib.Base.{
  String, ◌≡◌, refl, Bool, true, false, Option, none, some, List, [], ◌∷◌, ◌++◌, All, arith,
}
use model_lib.Worker.Effects.{
  Outcome, returns, raises, IdempotencyState, new, in_progress, terminal, Effect, lock_requested,
  lock_released, dead_lettered, slept, failed, call,
}
use model_lib.Worker.Message.{
  DispatchTaskPayload, StreamMessage, WorkerProcessResult, RuntimeThreadSnapshot,
}
use model_lib.Worker.Emits.{Emits, All-append, Emits-call, Emits-pure, Emits-mono, emits_rules}
use model_lib.Worker.Calls.{
  Env, TerminalThread, absent, publish_terminal, acknowledge, mark_runtime_terminal,
  publish_runtime_terminal, auto_publish, handle_vehicle_breakdown,
}
use model_lib.Worker.Graph.{process_graph, runtime_thread}
use model_lib.Worker.Graph.Quiet.{
  GraphEffect, process_graph-GraphEffect, runtime_thread-GraphEffect,
}
use model_lib.Worker.Process.{
  replay_rescued, replay_published, ack_terminal_replay, replay_terminal, replay_reconciled,
  finish_rescued, finish_published, finish, settle, run_with, execute, resume_in_progress,
  by_decision, locked_body, with_lock, process_guarded,
}

-- An effect of handling a message that is neither the lock's nor the dead-letter queue's.
abbrev pub BodyEffect : Effect → Type 0
BodyEffect lock_requested = ⊥
BodyEffect lock_released = ⊥
BodyEffect dead_lettered = ⊥
BodyEffect (slept ms) = ⊥
BodyEffect (failed e) = BodyEffect e
BodyEffect _ = Unit

GraphEffect-BodyEffect : (e : Effect) → GraphEffect e → BodyEffect e
GraphEffect-BodyEffect lock_requested h = h
GraphEffect-BodyEffect lock_released h = h
GraphEffect-BodyEffect dead_lettered h = h
GraphEffect-BodyEffect (slept ms) h = h
GraphEffect-BodyEffect (failed e) h = GraphEffect-BodyEffect e h
GraphEffect-BodyEffect _ h = tt

abbrev pub Handled : Effect → Type 0
Handled dead_lettered = ⊥
Handled (slept ms) = ⊥
Handled (failed e) = Handled e
Handled _ = Unit

BodyEffect-Handled : (e : Effect) → BodyEffect e → Handled e
BodyEffect-Handled dead_lettered h = h
BodyEffect-Handled (slept ms) h = h
BodyEffect-Handled (failed e) h = BodyEffect-Handled e h
BodyEffect-Handled _ h = tt

module _ (env : Env) where
  mark_runtime_terminal-BodyEffect : (s : String) → Emits BodyEffect (mark_runtime_terminal env s)
  unfolding mark_runtime_terminal
  mark_runtime_terminal-BodyEffect s = record { at = ground arith }

  publish_runtime_terminal-BodyEffect :
      (t : TerminalThread) → Emits BodyEffect (publish_runtime_terminal env t)
  unfolding publish_runtime_terminal
  publish_runtime_terminal-BodyEffect t = record { at = ground arith }

  publish_terminal-BodyEffect : (s : Option String) → Emits BodyEffect (publish_terminal env s)
  unfolding publish_terminal
  publish_terminal-BodyEffect s = search (emits_rules, tt) depth 8

  acknowledge-BodyEffect : Emits BodyEffect (acknowledge env)
  unfolding acknowledge
  acknowledge-BodyEffect = search (emits_rules, tt)

  auto_publish-BodyEffect : (s : Option String) → Emits BodyEffect (auto_publish env s)
  unfolding auto_publish
  auto_publish-BodyEffect s = search (emits_rules, tt)

  handle_vehicle_breakdown-BodyEffect :
      (p : DispatchTaskPayload) (s : Option String)
      → Emits BodyEffect (handle_vehicle_breakdown env p s)
  unfolding handle_vehicle_breakdown
  handle_vehicle_breakdown-BodyEffect p s = search (emits_rules, tt)

  process_graph-BodyEffect :
      (m : StreamMessage) (t : Option RuntimeThreadSnapshot)
      → Emits BodyEffect (process_graph env m false t)
  process_graph-BodyEffect m t =
      Emits-mono (process_graph env m false t) GraphEffect-BodyEffect
        (process_graph-GraphEffect env m t)

  runtime_thread-BodyEffect : Emits BodyEffect (runtime_thread env)
  runtime_thread-BodyEffect =
      Emits-mono (runtime_thread env) GraphEffect-BodyEffect (runtime_thread-GraphEffect env)

ruleset call_rules = (
  emits_rules, mark_runtime_terminal-BodyEffect, publish_runtime_terminal-BodyEffect,
  publish_terminal-BodyEffect, acknowledge-BodyEffect, auto_publish-BodyEffect,
  handle_vehicle_breakdown-BodyEffect, process_graph-BodyEffect, runtime_thread-BodyEffect, tt,
)

module _ (env : Env) where
  replay_rescued-BodyEffect :
      (m : StreamMessage) (s : Option String) (b : Bool) (code : Option String)
      → Emits BodyEffect (replay_rescued env m s b code)
  unfolding replay_rescued
  replay_rescued-BodyEffect m s b none = search call_rules
  replay_rescued-BodyEffect m s b (some code) = search call_rules

  replay_published-BodyEffect :
      (m : StreamMessage) (s : Option String) (b : Bool) (code : Option String)
      → Emits BodyEffect (replay_published env m s b code)
  unfolding replay_published
  replay_published-BodyEffect m s b none = search (call_rules, replay_rescued-BodyEffect)
  replay_published-BodyEffect m s b (some code) = search call_rules

  ack_terminal_replay-BodyEffect :
      (m : StreamMessage) (s : Option String) (b : Bool)
      → Emits BodyEffect (ack_terminal_replay env m s b)
  unfolding ack_terminal_replay
  ack_terminal_replay-BodyEffect m s b = search (call_rules, replay_published-BodyEffect)

  replay_terminal-BodyEffect :
      (m : StreamMessage) (s : Option String) (t : TerminalThread)
      → Emits BodyEffect (replay_terminal env m s t)
  unfolding replay_terminal
  replay_terminal-BodyEffect m s absent = search call_rules
  replay_terminal-BodyEffect m s _ = search (call_rules, ack_terminal_replay-BodyEffect)

  replay_reconciled-BodyEffect :
      (m : StreamMessage) (s : Option String) (t : TerminalThread)
      → Emits BodyEffect (replay_reconciled env m s t)
  unfolding replay_reconciled
  replay_reconciled-BodyEffect m s absent = search call_rules
  replay_reconciled-BodyEffect m s _ = search (call_rules, ack_terminal_replay-BodyEffect)

  finish_rescued-BodyEffect :
      (r : WorkerProcessResult) (st : IdempotencyState) (t : TerminalThread) (code : Option String)
      → Emits BodyEffect (finish_rescued env r st t code)
  unfolding finish_rescued
  finish_rescued-BodyEffect r st t none = search call_rules
  finish_rescued-BodyEffect r st t (some code) = search call_rules

  finish_published-BodyEffect :
      (m : StreamMessage) (r : WorkerProcessResult) (st : IdempotencyState) (t : TerminalThread)
      (code : Option String)
      → Emits BodyEffect (finish_published env m r st t code)
  unfolding finish_published
  finish_published-BodyEffect m r st t none = search (call_rules, finish_rescued-BodyEffect)
  finish_published-BodyEffect m r st t (some code) = search call_rules

  finish-BodyEffect :
      (m : StreamMessage) (r : WorkerProcessResult) (st : IdempotencyState) (t : TerminalThread)
      → Emits BodyEffect (finish env m r st t)
  unfolding finish
  finish-BodyEffect m r st absent = search call_rules
  finish-BodyEffect m r st _ = search (call_rules, finish_published-BodyEffect)

  settle-BodyEffect :
      (m : StreamMessage) (st : IdempotencyState) (r : WorkerProcessResult)
      → Emits BodyEffect (settle env m st r)
  unfolding settle
  settle-BodyEffect m st r = search (call_rules, finish-BodyEffect)

  run_with-BodyEffect :
      (m : StreamMessage) (st : IdempotencyState) (t : Option (Option RuntimeThreadSnapshot))
      → Emits BodyEffect (run_with env m st t)
  unfolding run_with
  run_with-BodyEffect m st none = search call_rules
  run_with-BodyEffect m st (some t) = search (call_rules, settle-BodyEffect)

  execute-BodyEffect :
      (m : StreamMessage) (st : IdempotencyState) → Emits BodyEffect (execute env m st)
  unfolding execute
  execute-BodyEffect m st = search (call_rules, run_with-BodyEffect)

  resume_in_progress-BodyEffect :
      (m : StreamMessage) (s : Option String) → Emits BodyEffect (resume_in_progress env m s)
  unfolding resume_in_progress
  resume_in_progress-BodyEffect m s =
      search (call_rules, execute-BodyEffect, replay_reconciled-BodyEffect)

  by_decision-BodyEffect :
      (m : StreamMessage) (st : IdempotencyState) (s : Option String)
      → Emits BodyEffect (by_decision env m st s)
  unfolding by_decision
  by_decision-BodyEffect m terminal s = search (call_rules, replay_terminal-BodyEffect)
  by_decision-BodyEffect m in_progress s = search (call_rules, resume_in_progress-BodyEffect)
  by_decision-BodyEffect m new s = search (call_rules, execute-BodyEffect)

  locked_body-BodyEffect : (m : StreamMessage) → Emits BodyEffect (locked_body env m)
  unfolding locked_body
  locked_body-BodyEffect m = search (call_rules, by_decision-BodyEffect)

  -- Which effects there are, by the answer to the lock's request.
  abbrev pub LockTrace : Outcome Bool → List Effect → Type 0
  LockTrace (returns true) es =
      (body : List Effect) × All BodyEffect body
      × (es ≡ lock_requested ∷ (body ++ (call lock_released env.release).1))
  LockTrace (returns false) es = es ≡ lock_requested ∷ []
  LockTrace raises es = es ≡ failed lock_requested ∷ []

  process_guarded-LockTrace_at :
      (m : StreamMessage) (o : Outcome Bool)
      → env.acquire ≡ o
      → LockTrace o (process_guarded env m).1
  unfolding process_guarded
  process_guarded-LockTrace_at m (returns true) e =
      ((locked_body env m).1, (locked_body-BodyEffect m).at, rw (e, process_guarded) refl)
  process_guarded-LockTrace_at m (returns false) e = ground arith
  process_guarded-LockTrace_at m raises e = ground arith

  -- Whatever the collaborators answer, and also when one of them raises: a granted lock is released
  -- by the last effect and by no other, nothing before it dead-letters the message or pauses, and
  -- with no lock granted nothing else is done.
  pub process_guarded-LockTrace :
      (m : StreamMessage) → LockTrace env.acquire (process_guarded env m).1
  process_guarded-LockTrace m = process_guarded-LockTrace_at m env.acquire refl

  with_lock-Handled : (m : StreamMessage) (b : Bool) → Emits Handled (with_lock env m b)
  unfolding with_lock
  with_lock-Handled m false = Emits-pure _
  with_lock-Handled m true = record {
    at =
        All-append Handled (locked_body env m).1 (call lock_released env.release).1
          (Emits-mono (locked_body env m) BodyEffect-Handled (locked_body-BodyEffect m)).at
          (Emits-call lock_released env.release tt tt).at;
  }

  -- Neither the dead-letter queue nor a pause is part of handling a message.
  pub process_guarded-Handled : (m : StreamMessage) → Emits Handled (process_guarded env m)
  unfolding process_guarded
  process_guarded-Handled m = search (emits_rules, with_lock-Handled, tt)
