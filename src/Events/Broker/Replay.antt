-- ===== src/Events/Broker/Replay.antt =====
-- The numbers of a task's events, and what a subscriber that comes back is given.
use model_lib.Base.{
  ℕ, zero, suc, ◌+◌, ◌-◌, ◌<◌, String, ◌≡◌, ◌≢◌, refl, inl, inr, some, List, [], ◌∷◌, ◌++◌, length,
  drop, length-append, if◌then◌else◌, All, arith, Bool-cases,
}
use model_lib.Base.Eq.{◌==◌, string_eq, ==_iff, eq_refl}
use model_lib.Events.Broker.{
  TaskEvent, InMemoryTaskEventBroker, new_broker, last_sequence, latest_sequence, append_bounded,
  set_history, publish, rest_after, or_all, history_of, subscribe, unsubscribe, Call, published,
  subscribed, unsubscribed, step, run,
}
use model_lib.Events.Broker.Bounds.{step-sizes}

last_sequence-append :
    (es : List TaskEvent) (e : TaskEvent) → last_sequence (es ++ e ∷ []) ≡ e.sequence
unfolding last_sequence
last_sequence-append [] e = refl
last_sequence-append (d ∷ []) e = refl
last_sequence-append (d ∷ f ∷ es) e = last_sequence-append (f ∷ es) e

last_sequence-drop :
    (n : ℕ) (es : List TaskEvent) → n < length es → last_sequence (drop n es) ≡ last_sequence es
unfolding last_sequence
last_sequence-drop zero es h = refl
last_sequence-drop (suc n) [] h = ground arith
last_sequence-drop (suc n) (e ∷ []) h = ground arith
last_sequence-drop (suc n) (e ∷ f ∷ es) h = last_sequence-drop n (f ∷ es) (omega arith)

last_sequence-append_bounded :
    (size : ℕ) (es : List TaskEvent) (e : TaskEvent)
    → 0 < size
    → last_sequence (append_bounded size es e) ≡ e.sequence
unfolding append_bounded
last_sequence-append_bounded size es e p = ground (
  arith,
  last_sequence-append es e,
  length-append es (e ∷ []),
  last_sequence-drop (length (es ++ e ∷ []) - size) (es ++ e ∷ [])
      (omega (arith, length-append es (e ∷ []))),
)

-- How many of the calls publish an event of a task.
pub publications : String → List Call → ℕ
publications task_id [] = 0
publications task_id (published e ∷ cs) =
    let rest = publications task_id cs in if task_id == e.task_id then suc rest else rest
publications task_id (_ ∷ cs) = publications task_id cs

latest_sequence-publish :
    (b : InMemoryTaskEventBroker) (e : TaskEvent) (task_id : String)
    → 0 < b.history_size
    → latest_sequence (publish b e).0 task_id
      ≡ (if task_id == e.task_id then latest_sequence b task_id + 1 else latest_sequence b task_id)
unfolding latest_sequence publish set_history
latest_sequence-publish b e task_id p = elim (Bool-cases (task_id == e.task_id)) [
  | inl q ↦ ground (
    arith,
    ==_iff task_id e.task_id,
    last_sequence-append_bounded b.history_size (b.histories e.task_id)
        (record e { sequence = last_sequence (b.histories e.task_id) + 1 }) p,
  )
  | inr q ↦ ground arith
]

latest_sequence-run :
    (b : InMemoryTaskEventBroker) (cs : List Call) (task_id : String)
    → 0 < b.history_size
    → latest_sequence (run b cs) task_id ≡ latest_sequence b task_id + publications task_id cs
unfolding run publications step subscribe unsubscribe latest_sequence
latest_sequence-run b [] task_id p = omega arith
latest_sequence-run b (published e ∷ cs) task_id p = ground (
  arith,
  latest_sequence-publish b e task_id p,
  latest_sequence-run (publish b e).0 cs task_id (omega (arith, (step-sizes b (published e)).1)),
)
latest_sequence-run b (subscribed t last id ∷ cs) task_id p =
    latest_sequence-run (subscribe b t last id) cs task_id p
latest_sequence-run b (unsubscribed t id ∷ cs) task_id p =
    latest_sequence-run (unsubscribe b t id) cs task_id p

-- On a new broker that keeps a history, the latest number of a task is the number of the events
-- published for it, however many of them the history has dropped.
pub latest_sequence-run-new_broker :
    (history_size queue_size : ℕ) (cs : List Call) (task_id : String)
    → 0 < history_size
    → latest_sequence (run (new_broker history_size queue_size) cs) task_id
      ≡ publications task_id cs
unfolding new_broker latest_sequence last_sequence
latest_sequence-run-new_broker history_size queue_size cs task_id p =
    omega (arith, latest_sequence-run (new_broker history_size queue_size) cs task_id p)

rest_after-append :
    (earlier : List TaskEvent) (e : TaskEvent) (later : List TaskEvent)
    → All (λ (d : TaskEvent). d.event_id ≢ e.event_id) earlier
    → rest_after e.event_id (earlier ++ e ∷ later) ≡ some later
unfolding rest_after
rest_after-append [] e later h = ground (arith, eq_refl e.event_id)
rest_after-append (d ∷ earlier) e later h =
    ground (arith, rest_after-append earlier e later h.1, h.0, ==_iff d.event_id e.event_id)

-- After an event that the history still has, exactly the events after its first occurrence are given.
pub history_of-after :
    (earlier : List TaskEvent) (e : TaskEvent) (later : List TaskEvent)
    → All (λ (d : TaskEvent). d.event_id ≢ e.event_id) earlier
    → history_of (earlier ++ e ∷ later) (some e.event_id) ≡ later
unfolding history_of or_all
history_of-after earlier e later h = ground (arith, rest_after-append earlier e later h)
