-- ===== src/Idempotency/Ledger/Unique.antt =====
-- What holds of the tables after every operation of the ledger.
use model_lib.Base.{
  ℕ, String, ◌≡◌, refl, sym, ◌∙◌, ap, inl, inr, Bool, false, Option, none, some, List, [], ◌∷◌, map,
  arith, Bool-cases, ◌||◌,
}
use model_lib.Base.Eq.{◌==◌, nat_eq, string_eq}
use model_lib.Idempotency.Ledger.{
  DispatchTask, RuntimeThread, Database, Result, ok, fails, any, has_task_id, has_key, task_breaks,
  thread_breaks, event_breaks, add_rows, insert, begin_from, begin, update, with_status, new_thread,
  set_status, created_event,
}
use model_lib.Idempotency.Ledger.Runs.{Step, began, changed, Reach, here, further, empty}

-- No two tasks have the same id or the same key.
abbrev pub Unique : List DispatchTask → Type 0
Unique [] = Unit
Unique (t ∷ ts) =
    (any (has_task_id t.task_id) ts ≡ false)
    × (any (has_key t.idempotency_key) ts ≡ false)
    × Unique ts

-- ... and each task has its one runtime thread.
pub record IsWellFormed (db : Database) : Type 0 where
  pub unique : Unique db.tasks
  pub linked :
      map (λ (t : RuntimeThread). t.task_id) db.threads
      ≡ map (λ (t : DispatchTask). t.task_id) db.tasks

add_rows-IsWellFormed :
    (db : Database) (t : DispatchTask)
    → task_breaks db t ≡ false
    → IsWellFormed db
    → IsWellFormed (add_rows db t)
unfolding add_rows task_breaks new_thread
add_rows-IsWellFormed db t e w = record {
  unique = (ground arith, ground arith, w.unique);
  linked = ap (λ ids. t.task_id ∷ ids) w.linked;
}

first_false : (a b c : Bool) → a || b || c ≡ false → a ≡ false
first_false a b c e = ground arith

insert-IsWellFormed :
    (db : Database) (t : DispatchTask) → IsWellFormed db → IsWellFormed (insert db t).0
unfolding insert
insert-IsWellFormed db t w = elim (Bool-cases (t.task_id == "")) [
  | inl e ↦ rw (e, insert) w
  | inr e ↦
      elim (Bool-cases (
        task_breaks db t
        || thread_breaks db (new_thread t.task_id)
        || event_breaks db (created_event t.task_id))) [
          | inl b ↦ rw (e, b, insert) w
          | inr b ↦ rw (e, b, insert) (add_rows-IsWellFormed db t (first_false _ _ _ b) w)
        ]
]

begin_from-IsWellFormed :
    (found : Result (Option DispatchTask)) (now : Database) (t : DispatchTask)
    → IsWellFormed now
    → IsWellFormed (begin_from found now t).0
unfolding begin_from
begin_from-IsWellFormed (fails e) now t w = w
begin_from-IsWellFormed (ok (some f)) now t w = w
begin_from-IsWellFormed (ok none) now t w = insert-IsWellFormed now t w

module _ (f : DispatchTask → DispatchTask) (x : String)
    (keeps : (t : DispatchTask)
      → ((f t).task_id ≡ t.task_id) × ((f t).idempotency_key ≡ t.idempotency_key)) where
  any-id-update :
      (y : String) (ts : List DispatchTask)
      → any (has_task_id y) (update f x ts) ≡ any (has_task_id y) ts
  unfolding any update
  any-id-update y [] = refl
  any-id-update y (t ∷ ts) = ground (arith, (keeps t).0, any-id-update y ts)

  any-key-update :
      (y : String) (ts : List DispatchTask) → any (has_key y) (update f x ts) ≡ any (has_key y) ts
  unfolding any update
  any-key-update y [] = refl
  any-key-update y (t ∷ ts) = ground (arith, (keeps t).1, any-key-update y ts)

  update-Unique : (ts : List DispatchTask) → Unique ts → Unique (update f x ts)
  unfolding update
  update-Unique [] u = u
  update-Unique (t ∷ ts) u = elim (Bool-cases (has_task_id x t)) [
    | inl e ↦ rw (e, update, (keeps t).0, (keeps t).1) u
    | inr e ↦
        rw (e, update, any-id-update t.task_id ts, any-key-update t.idempotency_key ts)
          (u.0, u.1, update-Unique ts u.2)
  ]

  ids-update :
      (ts : List DispatchTask)
      → map (λ (t : DispatchTask). t.task_id) (update f x ts)
        ≡ map (λ (t : DispatchTask). t.task_id) ts
  unfolding update
  ids-update [] = refl
  ids-update (t ∷ ts) = ground (arith, (keeps t).0, ids-update ts)

with_status-keeps :
    (status : String) (started completed : Bool) (now : ℕ) (t : DispatchTask)
    → ((with_status status started completed now t).task_id ≡ t.task_id)
      × ((with_status status started completed now t).idempotency_key ≡ t.idempotency_key)
unfolding with_status
with_status-keeps status started completed now t = (refl, refl)

set_status-IsWellFormed :
    (db : Database) (task_id status : String) (started completed : Bool) (now : ℕ)
    → IsWellFormed db
    → IsWellFormed (set_status db task_id status started completed now).0
unfolding set_status
set_status-IsWellFormed db task_id status started completed now w =
    elim (Bool-cases (any (has_task_id task_id) db.tasks)) [
      | inr e ↦ rw (e, set_status) w
      | inl e ↦
          let keeps = with_status-keeps status started completed now in
          rw (e, set_status)
            (record {
              unique =
                  update-Unique (with_status status started completed now) task_id keeps db.tasks
                    w.unique;
              linked =
                  w.linked
                  ∙ sym (
                      ids-update (with_status status started completed now) task_id keeps db.tasks);
            })
    ]

Step-IsWellFormed : {db next : Database} → Step db next → IsWellFormed db → IsWellFormed next
unfolding begin
Step-IsWellFormed (began seen now task_id order_id key anomaly_id assignee) w =
    begin_from-IsWellFormed _ now _ w
Step-IsWellFormed (changed db task_id status started completed now) w =
    set_status-IsWellFormed db task_id status started completed now w

-- After any sessions on empty tables, whatever each of them had read before it wrote, no two tasks
-- have the same id or the same key, and each task has its one runtime thread, in the same order.
pub Reach-IsWellFormed :
    (orders anomalies : List ℕ) (db : Database)
    → Reach (empty orders anomalies) db
    → IsWellFormed db
Reach-IsWellFormed orders anomalies db here = record { unique = tt; linked = refl }
Reach-IsWellFormed orders anomalies db (further r s) =
    Step-IsWellFormed s (Reach-IsWellFormed orders anomalies _ r)
