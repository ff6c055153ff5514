-- ===== src/Events/Broker.antt =====
-- `InMemoryTaskEventBroker` of backend/app/events/broker.py. The histories are a function of the
-- task, the subscribers one list; a queue is a list, its oldest event first. An event's payload is
-- one text.
pub mod Bounds
pub mod Replay
mod Tests
use model_lib.Base.{
  ℕ, ◌+◌, ◌-◌, String, Bool, true, false, not, ◌&&◌, ◌||◌, Option, none, some, List, [], ◌∷◌, ◌++◌,
  length, drop, map, ltb, if◌then◌else◌,
}
use model_lib.Base.Eq.{◌==◌, nat_eq, string_eq}

pub record TaskEvent : Type 0 where
  pub event_id : String
  pub task_id : String
  pub sequence : ℕ
  pub payload : String

pub record TaskEventSubscription : Type 0 where
  pub subscription_id : String
  pub task_id : String
  pub queue : List TaskEvent

pub record InMemoryTaskEventBroker : Type 0 where
  pub history_size : ℕ
  pub subscriber_queue_size : ℕ
  pub histories : String → List TaskEvent
  pub subscribers : List TaskEventSubscription

pub new_broker : ℕ → ℕ → InMemoryTaskEventBroker
new_broker history_size queue_size = record {
  history_size = history_size;
  subscriber_queue_size = queue_size;
  histories = λ task_id. [];
  subscribers = [];
}

abbrev pub with_sequence : TaskEvent → ℕ → TaskEvent
with_sequence e n = record e { sequence = n }

-- `history[-1].sequence if history else 0`
pub last_sequence : List TaskEvent → ℕ
last_sequence [] = 0
last_sequence (e ∷ []) = e.sequence
last_sequence (e ∷ f ∷ es) = last_sequence (f ∷ es)

pub latest_sequence : InMemoryTaskEventBroker → String → ℕ
latest_sequence b task_id = last_sequence (b.histories task_id)

-- `deque(maxlen=...).append`
pub append_bounded : ℕ → List TaskEvent → TaskEvent → List TaskEvent
append_bounded size es e = drop (length (es ++ e ∷ []) - size) (es ++ e ∷ [])

-- `_offer`: a full queue loses its oldest event. A queue of size 0 is never full.
pub offer : ℕ → List TaskEvent → TaskEvent → List TaskEvent
offer size queue e =
    if size == 0 || ltb (length queue) size then queue ++ e ∷ [] else drop 1 queue ++ e ∷ []

pub offer_all : ℕ → List TaskEvent → List TaskEvent → List TaskEvent
offer_all size queue [] = queue
offer_all size queue (e ∷ es) = offer_all size (offer size queue e) es

deliver : ℕ → TaskEvent → TaskEventSubscription → TaskEventSubscription
deliver size e s = if s.task_id == e.task_id then record s { queue = offer size s.queue e } else s

set_history : (String → List TaskEvent) → String → List TaskEvent → String → List TaskEvent
set_history histories task_id es other = if other == task_id then es else histories other

pub publish : InMemoryTaskEventBroker → TaskEvent → InMemoryTaskEventBroker × TaskEvent
publish b e =
    let published = with_sequence e (latest_sequence b e.task_id + 1) in
    (
      record b {
        histories =
            set_history b.histories e.task_id
              (append_bounded b.history_size (b.histories e.task_id) published);
        subscribers = map (deliver b.subscriber_queue_size published) b.subscribers;
      },
      published,
    )

-- `history` after an event: everything if the event is not there.
rest_after : String → List TaskEvent → Option (List TaskEvent)
rest_after id [] = none
rest_after id (e ∷ es) = let later = rest_after id es in if e.event_id == id then some es else later

or_all : List TaskEvent → Option (List TaskEvent) → List TaskEvent
or_all es none = es
or_all es (some rest) = rest

pub history_of : List TaskEvent → Option String → List TaskEvent
history_of es none = es
history_of es (some id) = or_all es (rest_after id es)

pub history : InMemoryTaskEventBroker → String → Option String → List TaskEvent
history b task_id after_event_id = history_of (b.histories task_id) after_event_id

-- `subscribe`, with the fresh id that the subscription gets
pub subscribe : InMemoryTaskEventBroker → String → Option String → String → InMemoryTaskEventBroker
subscribe b task_id last_event_id subscription_id = record b {
  subscribers =
      record {
        subscription_id = subscription_id;
        task_id = task_id;
        queue = offer_all b.subscriber_queue_size [] (history b task_id last_event_id);
      }
      ∷ b.subscribers;
}

is_subscription : String → String → TaskEventSubscription → Bool
is_subscription task_id subscription_id s =
    s.task_id == task_id && s.subscription_id == subscription_id

remove : String → String → List TaskEventSubscription → List TaskEventSubscription
remove task_id subscription_id [] = []
remove task_id subscription_id (s ∷ ss) =
    let rest = remove task_id subscription_id ss in
    if is_subscription task_id subscription_id s then rest else s ∷ rest

pub unsubscribe : InMemoryTaskEventBroker → String → String → InMemoryTaskEventBroker
unsubscribe b task_id subscription_id = record b {
  subscribers = remove task_id subscription_id b.subscribers;
}

pub data Call : Type 0 where
  published : TaskEvent → Call
  subscribed : String → Option String → String → Call
  unsubscribed : String → String → Call

pub step : InMemoryTaskEventBroker → Call → InMemoryTaskEventBroker
step b (published e) = (publish b e).0
step b (subscribed task_id last_event_id id) = subscribe b task_id last_event_id id
step b (unsubscribed task_id id) = unsubscribe b task_id id

pub run : InMemoryTaskEventBroker → List Call → InMemoryTaskEventBroker
run b [] = b
run b (c ∷ cs) = run (step b c) cs
