-- ===== src/Events/Broker/Tests.antt =====
-- A broker with a history of two events.
use model_lib.Base.{String, ◌≡◌, ◌≢◌, none, some, List, [], ◌∷◌, arith}
use model_lib.Base.Eq.{string_eq, ==_iff}
use model_lib.Events.Broker.{
  TaskEvent, new_broker, latest_sequence, history_of, Call, published, subscribed, unsubscribed,
  run,
}
use model_lib.Events.Broker.Bounds.{IsBounded, run-new_broker-IsBounded}
use model_lib.Events.Broker.Replay.{publications, latest_sequence-run-new_broker, history_of-after}

abbrev event : String → TaskEvent
event id = record { event_id = id; task_id = "task-1"; sequence = 0; payload = "{}" }

abbrev calls : List Call
calls =
    published (event "a")
    ∷ subscribed "task-1" none "s1"
    ∷ published (event "b")
    ∷ published (event "c")
    ∷ unsubscribed "task-1" "s1"
    ∷ []

run-new_broker-IsBounded_example : IsBounded (run (new_broker 2 1) calls)
run-new_broker-IsBounded_example = run-new_broker-IsBounded 2 1 calls (omega arith)

latest_sequence-run-new_broker_example :
    latest_sequence (run (new_broker 2 1) calls) "task-1" ≡ publications "task-1" calls
latest_sequence-run-new_broker_example =
    latest_sequence-run-new_broker 2 1 calls "task-1" (omega arith)

other : (event "a").event_id ≢ (event "b").event_id
other e = ground (arith, (==_iff (event "a").event_id (event "b").event_id).1 e)

history_of-after_example :
    history_of (event "a" ∷ event "b" ∷ event "c" ∷ []) (some "b") ≡ event "c" ∷ []
history_of-after_example =
    history_of-after (event "a" ∷ []) (event "b") (event "c" ∷ []) (other, tt)
