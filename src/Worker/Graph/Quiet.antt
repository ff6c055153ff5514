-- ===== src/Worker/Graph/Quiet.antt =====
-- What a run of the graph does besides: it reads and claims the runtime thread and publishes events,
-- and touches neither the lock, the ledger, the publication nor the rescue, nor acknowledges.
use model_lib.Base.{String, Bool, false, Option, none, some, arith}
use model_lib.Worker.Effects.{
  TaskEventType, Effect, read_thread, reconciled_thread, claimed_node, runner_set_up, graph_ran,
  acknowledged, event_published, failed,
}
use model_lib.Worker.Message.{StreamMessage, RuntimeThreadSnapshot, GraphInput, FinalState}
use model_lib.Worker.Emits.{Emits, Emits-mono, Emits-pure, emits_rules}
use model_lib.Worker.Calls.{Env, publish, acknowledge, terminal_state}
use model_lib.Worker.Graph.{
  run_thread, run_graph, report_unfinished, paused_or_unfinished, conclude_unfinished, conclude,
  after_graph, process_graph, runtime_thread,
}

abbrev pub GraphEffect : Effect → Type 0
GraphEffect read_thread = Unit
GraphEffect reconciled_thread = Unit
GraphEffect claimed_node = Unit
GraphEffect runner_set_up = Unit
GraphEffect graph_ran = Unit
GraphEffect (event_published t) = Unit
GraphEffect (failed e) = GraphEffect e
GraphEffect _ = ⊥

abbrev pub AckEffect : Effect → Type 0
AckEffect acknowledged = Unit
AckEffect (failed e) = AckEffect e
AckEffect e = GraphEffect e

GraphEffect-AckEffect : (e : Effect) → GraphEffect e → AckEffect e
GraphEffect-AckEffect (failed e) h = GraphEffect-AckEffect e h
GraphEffect-AckEffect acknowledged h = tt
GraphEffect-AckEffect _ h = h

module _ (env : Env) where
  publish-GraphEffect : (t : TaskEventType) → Emits GraphEffect (publish env t)
  unfolding publish
  publish-GraphEffect t = search (emits_rules, tt)

  publish-AckEffect : (t : TaskEventType) → Emits AckEffect (publish env t)
  publish-AckEffect t = Emits-mono (publish env t) GraphEffect-AckEffect (publish-GraphEffect t)

  acknowledge-AckEffect : Emits AckEffect (acknowledge env)
  unfolding acknowledge
  acknowledge-AckEffect = search (emits_rules, tt)

  run_thread-GraphEffect :
      (t : RuntimeThreadSnapshot) (checkpoint : Option String) (input : GraphInput)
      → Emits GraphEffect (run_thread env t checkpoint input)
  unfolding run_thread
  run_thread-GraphEffect t checkpoint input = record { at = ground arith }

  run_graph-GraphEffect :
      (t : Option RuntimeThreadSnapshot) (input : GraphInput)
      → Emits GraphEffect (run_graph env t input)
  unfolding run_graph
  run_graph-GraphEffect none input = record { at = ground arith }
  run_graph-GraphEffect (some t) input = record { at = ground arith }

  run_graph-AckEffect :
      (t : Option RuntimeThreadSnapshot) (input : GraphInput)
      → Emits AckEffect (run_graph env t input)
  run_graph-AckEffect t input =
      Emits-mono (run_graph env t input) GraphEffect-AckEffect (run_graph-GraphEffect t input)

  report_unfinished-GraphEffect :
      (m : StreamMessage) (manual : Bool) (code : Option String)
      → Emits GraphEffect (report_unfinished env m manual code)
  unfolding report_unfinished
  report_unfinished-GraphEffect m manual code = search (emits_rules, publish-GraphEffect)

  paused_or_unfinished-GraphEffect :
      (m : StreamMessage) (manual : Bool) (code : Option String) (t : Option RuntimeThreadSnapshot)
      → Emits GraphEffect (paused_or_unfinished env m manual code t)
  unfolding paused_or_unfinished
  paused_or_unfinished-GraphEffect m manual code t =
      search (emits_rules, report_unfinished-GraphEffect)

  conclude_unfinished-GraphEffect :
      (m : StreamMessage) (manual : Bool) (code : Option String)
      → Emits GraphEffect (conclude_unfinished env m manual code)
  unfolding conclude_unfinished
  conclude_unfinished-GraphEffect m manual code =
      search (emits_rules, tt, report_unfinished-GraphEffect, paused_or_unfinished-GraphEffect)

  -- Without the immediate acknowledgement.
  conclude-GraphEffect :
      (m : StreamMessage) (status : Option String) (manual : Bool) (code : Option String)
      → Emits GraphEffect (conclude env m false status manual code)
  unfolding conclude
  conclude-GraphEffect m none manual code = conclude_unfinished-GraphEffect m manual code
  conclude-GraphEffect m (some status) manual code = Emits-pure _

  after_graph-GraphEffect :
      (m : StreamMessage) (s : Option FinalState) → Emits GraphEffect (after_graph env m false s)
  unfolding after_graph
  after_graph-GraphEffect m none = search (emits_rules, publish-GraphEffect)
  after_graph-GraphEffect m (some s) =
      let (status, manual, code) = terminal_state s in conclude-GraphEffect m status manual code

  pub process_graph-GraphEffect :
      (m : StreamMessage) (t : Option RuntimeThreadSnapshot)
      → Emits GraphEffect (process_graph env m false t)
  unfolding process_graph
  process_graph-GraphEffect m t =
      search (emits_rules, publish-GraphEffect, run_graph-GraphEffect, after_graph-GraphEffect)

  -- With the immediate acknowledgement, where it is asked for.
  conclude-AckEffect :
      (m : StreamMessage) (b : Bool) (status : Option String) (manual : Bool) (code : Option String)
      → Emits AckEffect (conclude env m b status manual code)
  unfolding conclude
  conclude-AckEffect m b none manual code =
      Emits-mono (conclude_unfinished env m manual code) GraphEffect-AckEffect
        (conclude_unfinished-GraphEffect m manual code)
  conclude-AckEffect m b (some status) manual code = search (emits_rules, acknowledge-AckEffect)

  after_graph-AckEffect :
      (m : StreamMessage) (b : Bool) (s : Option FinalState)
      → Emits AckEffect (after_graph env m b s)
  unfolding after_graph
  after_graph-AckEffect m b none = search (emits_rules, publish-AckEffect)
  after_graph-AckEffect m b (some s) =
      let (status, manual, code) = terminal_state s in conclude-AckEffect m b status manual code

  pub process_graph-AckEffect :
      (m : StreamMessage) (b : Bool) (t : Option RuntimeThreadSnapshot)
      → Emits AckEffect (process_graph env m b t)
  unfolding process_graph
  process_graph-AckEffect m b t =
      search (emits_rules, publish-AckEffect, run_graph-AckEffect, after_graph-AckEffect)

  pub runtime_thread-GraphEffect : Emits GraphEffect (runtime_thread env)
  unfolding runtime_thread
  runtime_thread-GraphEffect = record { at = ground arith }
