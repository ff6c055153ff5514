-- ===== src/Events/Broker/Bounds.antt =====
-- What holds of a broker after any calls.
use model_lib.Base.{
  ℕ, zero, suc, ◌+◌, ◌-◌, ◌≤◌, ◌<◌, String, ◌≡◌, refl, inl, inr, List, [], ◌∷◌, ◌++◌, length, drop,
  map, length-append, length-drop, All, arith, Bool-cases,
}
use model_lib.Base.Eq.{◌==◌, nat_eq, string_eq, ==_iff}
use model_lib.Events.Broker.{
  TaskEvent, TaskEventSubscription, InMemoryTaskEventBroker, new_broker, with_sequence,
  last_sequence, latest_sequence, append_bounded, offer, offer_all, deliver, set_history, publish,
  history, subscribe, remove, unsubscribe, Call, published, subscribed, unsubscribed, step, run,
}

-- Each event's number is one more than the number of the event before it.
abbrev pub Consecutive : List TaskEvent → Type 0
Consecutive [] = Unit
Consecutive (e ∷ []) = Unit
Consecutive (e ∷ f ∷ es) = (f.sequence ≡ e.sequence + 1) × Consecutive (f ∷ es)

Consecutive-append :
    (es : List TaskEvent) (e : TaskEvent)
    → Consecutive es
    → e.sequence ≡ last_sequence es + 1
    → Consecutive (es ++ e ∷ [])
unfolding last_sequence
Consecutive-append [] e c h = tt
Consecutive-append (d ∷ []) e c h = (h, tt)
Consecutive-append (d ∷ f ∷ es) e c h = (c.0, Consecutive-append (f ∷ es) e c.1 h)

Consecutive-drop : (n : ℕ) (es : List TaskEvent) → Consecutive es → Consecutive (drop n es)
Consecutive-drop zero es c = c
Consecutive-drop (suc n) [] c = c
Consecutive-drop (suc n) (e ∷ []) c = Consecutive-drop n [] tt
Consecutive-drop (suc n) (e ∷ f ∷ es) c = Consecutive-drop n (f ∷ es) c.1

length-append_bounded :
    (size : ℕ) (es : List TaskEvent) (e : TaskEvent) → length (append_bounded size es e) ≤ size
unfolding append_bounded
length-append_bounded size es e =
    omega (arith, length-drop (length (es ++ e ∷ []) - size) (es ++ e ∷ []))

length-offer :
    (size : ℕ) (queue : List TaskEvent) (e : TaskEvent)
    → 0 < size
    → length queue ≤ size
    → length (offer size queue e) ≤ size
unfolding offer
length-offer size queue e p h = ground (
  arith,
  length-append queue (e ∷ []),
  length-append (drop 1 queue) (e ∷ []),
  length-drop 1 queue,
  ==_iff size 0,
)

length-offer_all :
    (size : ℕ) (queue es : List TaskEvent)
    → 0 < size
    → length queue ≤ size
    → length (offer_all size queue es) ≤ size
unfolding offer_all
length-offer_all size queue [] p h = h
length-offer_all size queue (e ∷ es) p h =
    length-offer_all size (offer size queue e) es p (length-offer size queue e p h)

-- Within the two bounds, and numbered without a gap.
pub record IsBounded (b : InMemoryTaskEventBroker) : Type 0 where
  pub histories_bounded : (task_id : String) → length (b.histories task_id) ≤ b.history_size
  pub consecutive : (task_id : String) → Consecutive (b.histories task_id)
  pub queues_bounded :
      All (λ (s : TaskEventSubscription). length s.queue ≤ b.subscriber_queue_size) b.subscribers

abbrev QueuesBounded : ℕ → List TaskEventSubscription → Type 0
QueuesBounded size ss = All (λ (s : TaskEventSubscription). length s.queue ≤ size) ss

length-deliver :
    (size : ℕ) (e : TaskEvent) (s : TaskEventSubscription)
    → 0 < size
    → length s.queue ≤ size
    → length (deliver size e s).queue ≤ size
unfolding deliver
length-deliver size e s p h = ground (arith, length-offer size s.queue e p h)

deliver-QueuesBounded :
    (size : ℕ) (e : TaskEvent) (ss : List TaskEventSubscription)
    → 0 < size
    → QueuesBounded size ss
    → QueuesBounded size (map (deliver size e) ss)
deliver-QueuesBounded size e [] p h = tt
deliver-QueuesBounded size e (s ∷ ss) p h =
    (length-deliver size e s p h.0, deliver-QueuesBounded size e ss p h.1)

remove-QueuesBounded :
    (size : ℕ) (task_id id : String) (ss : List TaskEventSubscription)
    → QueuesBounded size ss
    → QueuesBounded size (remove task_id id ss)
unfolding remove
remove-QueuesBounded size task_id id [] h = tt
remove-QueuesBounded size task_id id (s ∷ ss) h =
    ground (arith, remove-QueuesBounded size task_id id ss h.1)

Consecutive-append_bounded :
    (size : ℕ) (es : List TaskEvent) (e : TaskEvent)
    → Consecutive es
    → e.sequence ≡ last_sequence es + 1
    → Consecutive (append_bounded size es e)
unfolding append_bounded
Consecutive-append_bounded size es e c h = Consecutive-drop _ _ (Consecutive-append es e c h)

module _ (b : InMemoryTaskEventBroker) (p : 0 < b.subscriber_queue_size) (h : IsBounded b) where
  publish-IsBounded : (e : TaskEvent) → IsBounded (publish b e).0
  unfolding publish set_history latest_sequence
  publish-IsBounded e =
      let numbered = with_sequence e (latest_sequence b e.task_id + 1) in
      let l = length-append_bounded b.history_size (b.histories e.task_id) numbered in
      let c =
        Consecutive-append_bounded b.history_size (b.histories e.task_id) numbered
          (h.consecutive e.task_id) refl in
      record {
        histories_bounded = λ t. elim (Bool-cases (t == e.task_id)) [
          | inl q ↦ rw (q, publish, set_history) l
          | inr q ↦ rw (q, publish, set_history) (h.histories_bounded t)
        ];
        consecutive = λ t. elim (Bool-cases (t == e.task_id)) [
          | inl q ↦ rw (q, publish, set_history) c
          | inr q ↦ rw (q, publish, set_history) (h.consecutive t)
        ];
        queues_bounded =
            deliver-QueuesBounded b.subscriber_queue_size numbered b.subscribers p h.queues_bounded;
      }

  step-IsBounded : (c : Call) → IsBounded (step b c)
  unfolding step subscribe unsubscribe
  step-IsBounded (published e) = publish-IsBounded e
  step-IsBounded (subscribed t last id) = record {
    histories_bounded = h.histories_bounded;
    consecutive = h.consecutive;
    queues_bounded = (
      length-offer_all b.subscriber_queue_size [] (history b t last) p (omega arith),
      h.queues_bounded,
    );
  }
  step-IsBounded (unsubscribed t id) = record {
    histories_bounded = h.histories_bounded;
    consecutive = h.consecutive;
    queues_bounded =
        remove-QueuesBounded b.subscriber_queue_size t id b.subscribers h.queues_bounded;
  }

pub step-sizes :
    (b : InMemoryTaskEventBroker) (c : Call)
    → ((step b c).subscriber_queue_size ≡ b.subscriber_queue_size)
      × ((step b c).history_size ≡ b.history_size)
unfolding step publish subscribe unsubscribe
step-sizes b (published e) = (refl, refl)
step-sizes b (subscribed t last id) = (refl, refl)
step-sizes b (unsubscribed t id) = (refl, refl)

run-IsBounded :
    (b : InMemoryTaskEventBroker) (cs : List Call)
    → 0 < b.subscriber_queue_size
    → IsBounded b
    → IsBounded (run b cs)
unfolding run
run-IsBounded b [] p h = h
run-IsBounded b (c ∷ cs) p h =
    run-IsBounded (step b c) cs (omega (arith, (step-sizes b c).0)) (step-IsBounded b p h c)

-- After any calls on a new broker with a positive queue size, no history and no subscriber's queue is
-- longer than its bound, and the events of a task are numbered without a gap.
pub run-new_broker-IsBounded :
    (history_size queue_size : ℕ) (cs : List Call)
    → 0 < queue_size
    → IsBounded (run (new_broker history_size queue_size) cs)
unfolding new_broker
run-new_broker-IsBounded history_size queue_size cs p =
    run-IsBounded _ cs p
      (record { histories_bounded = λ t. omega arith; consecutive = λ t. tt; queues_bounded = tt })
