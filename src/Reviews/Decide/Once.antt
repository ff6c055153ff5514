-- ===== src/Reviews/Decide/Once.antt =====
-- Decisions on a review after the first one.
use mathlib.Core.Path.{subst}
use model_lib.Base.{
  ℕ, String, ◌≡◌, refl, sym, ap, Bool, true, false, Option, none, some, List, [], ◌∷◌, arith,
  Bool-cases, inl, inr,
}
use model_lib.Base.Eq.{◌==◌, nat_eq, string_eq, ==_iff}
use model_lib.Reviews.Decide.{
  ReviewDecision, approve, reject, TaskRow, DispatchRow, Tables, Principal, Outcome, decided,
  refused, review_already_decided, Texts, terminal_status, find_task, set_task, Checked, accepted,
  faulty, latest_dispatch, decide_dispatch, decide_task, decide_checked, reason_of, decide,
}

abbrev pub is_decided : Outcome → Bool
is_decided (decided r) = true
is_decided (refused e) = false

-- What the arguments of `decide` are.
pub record Decision : Type 0 where
  pub task_id : String
  pub decision : ReviewDecision
  pub reason : Option String
  pub principal : Principal
  pub time : ℕ

-- A task that has a status, and not the one that asks for a review.
abbrev Closed : Option TaskRow → Type 0
Closed none = ⊥
Closed (some t) = (t.status == "REVIEW_REQUIRED") ≡ false

terminal_status-closed : (d : ReviewDecision) → (terminal_status d == "REVIEW_REQUIRED") ≡ false
unfolding terminal_status
terminal_status-closed approve = refl
terminal_status-closed reject = refl

find_task-id :
    (x : String) (ts : List TaskRow) (t : TaskRow) → find_task x ts ≡ some t → t.task_id ≡ x
unfolding find_task
find_task-id x [] t h = ground arith
find_task-id x (s ∷ ts) t h = ground (arith, ==_iff s.task_id x, find_task-id x ts t)

set_task-Closed :
    (x : String) (d : ReviewDecision) (time : ℕ) (ts : List TaskRow) (t : TaskRow)
    → find_task x ts ≡ some t
    → Closed (find_task x (set_task x (terminal_status d) time ts))
unfolding find_task set_task
set_task-Closed x d time [] t h = ground arith
set_task-Closed x d time (s ∷ ts) t h = elim (Bool-cases (s.task_id == x)) [
  | inl e ↦ ground (arith, terminal_status-closed d)
  | inr e ↦ ground (arith, set_task-Closed x d time ts t (ground arith))
]

set_task-keeps :
    (x y : String) (d : ReviewDecision) (time : ℕ) (ts : List TaskRow)
    → Closed (find_task x ts)
    → Closed (find_task x (set_task y (terminal_status d) time ts))
unfolding find_task set_task
set_task-keeps x y d time [] h = h
set_task-keeps x y d time (s ∷ ts) h = elim (Bool-cases (s.task_id == y)) [
  | inl e ↦ ground (arith, terminal_status-closed d)
  | inr e ↦ ground (arith, set_task-keeps x y d time ts)
]

module _ (texts : Texts) where
  unfoldable pub decide_all : Tables → List Decision → Tables
  decide_all db [] = db
  decide_all db (c ∷ cs) =
      decide_all (decide texts db c.task_id c.decision c.reason c.principal c.time).0 cs

  decide_task-Closed :
      (db : Tables) (found : Option TaskRow) (d : ReviewDecision) (reason : String) (p : Principal)
      (time : ℕ)
      → Closed found
      → decide_task texts db d reason p time found ≡ (db, refused review_already_decided)
  unfolding decide_task
  decide_task-Closed db none d reason p time h = absurd h
  decide_task-Closed db (some t) d reason p time h = ground arith

  dispatch_closes :
      (db : Tables) (x : String) (t : TaskRow) (d : ReviewDecision) (reason : String)
      (p : Principal) (time : ℕ) (latest : Option DispatchRow)
      → find_task x db.tasks ≡ some t
      → is_decided (decide_dispatch texts db t d reason p time latest).1 ≡ true
      → Closed (find_task x (decide_dispatch texts db t d reason p time latest).0.tasks)
  unfolding decide_dispatch
  dispatch_closes db x t d reason p time none e h = ground arith
  dispatch_closes db x t d reason p time (some row) e h =
      subst (λ y. Closed (find_task x (set_task y (terminal_status d) time db.tasks)))
        (sym (find_task-id x db.tasks t e)) (set_task-Closed x d time db.tasks t e)

  closes_at :
      (db : Tables) (x : String) (d : ReviewDecision) (reason : String) (p : Principal) (time : ℕ)
      (found : Option TaskRow)
      → find_task x db.tasks ≡ found
      → is_decided (decide_task texts db d reason p time found).1 ≡ true
      → Closed (find_task x (decide_task texts db d reason p time found).0.tasks)
  unfolding decide_task
  closes_at db x d reason p time none e h = ground arith
  closes_at db x d reason p time (some t) e h = elim (Bool-cases (t.status == "REVIEW_REQUIRED")) [
    | inl q ↦
        ground
          (arith, dispatch_closes db x t d reason p time (latest_dispatch t.id db.dispatches) e)
    | inr q ↦ ground arith
  ]

  checked_closes :
      (db : Tables) (x : String) (d : ReviewDecision) (p : Principal) (time : ℕ) (c : Checked)
      → is_decided (decide_checked texts db x d p time c).1 ≡ true
      → Closed (find_task x (decide_checked texts db x d p time c).0.tasks)
  unfolding decide_checked
  checked_closes db x d p time (faulty e) h = ground arith
  checked_closes db x d p time (accepted reason) h =
      closes_at db x d reason p time (find_task x db.tasks) refl h

  later_refused :
      (db : Tables) (x : String) (d : ReviewDecision) (p : Principal) (time : ℕ) (c : Checked)
      → Closed (find_task x db.tasks)
      → ((decide_checked texts db x d p time c).0 ≡ db)
        × (is_decided (decide_checked texts db x d p time c).1 ≡ false)
  unfolding decide_checked
  later_refused db x d p time (faulty e) h = (refl, refl)
  later_refused db x d p time (accepted reason) h =
      let e = decide_task-Closed db (find_task x db.tasks) d reason p time h in
      (ap (λ (r : Tables × Outcome). r.0) e, ap (λ (r : Tables × Outcome). is_decided r.1) e)

  dispatch_keeps :
      (db : Tables) (x : String) (t : TaskRow) (d : ReviewDecision) (reason : String)
      (p : Principal) (time : ℕ) (latest : Option DispatchRow)
      → Closed (find_task x db.tasks)
      → Closed (find_task x (decide_dispatch texts db t d reason p time latest).0.tasks)
  unfolding decide_dispatch
  dispatch_keeps db x t d reason p time none h = h
  dispatch_keeps db x t d reason p time (some row) h = set_task-keeps x t.task_id d time db.tasks h

  task_keeps :
      (db : Tables) (x : String) (d : ReviewDecision) (reason : String) (p : Principal) (time : ℕ)
      (found : Option TaskRow)
      → Closed (find_task x db.tasks)
      → Closed (find_task x (decide_task texts db d reason p time found).0.tasks)
  unfolding decide_task
  task_keeps db x d reason p time none h = h
  task_keeps db x d reason p time (some t) h =
      ground (arith, dispatch_keeps db x t d reason p time (latest_dispatch t.id db.dispatches) h)

  checked_keeps :
      (db : Tables) (x y : String) (d : ReviewDecision) (p : Principal) (time : ℕ) (c : Checked)
      → Closed (find_task x db.tasks)
      → Closed (find_task x (decide_checked texts db y d p time c).0.tasks)
  unfolding decide_checked
  checked_keeps db x y d p time (faulty e) h = h
  checked_keeps db x y d p time (accepted reason) h =
      task_keeps db x d reason p time (find_task y db.tasks) h

  all_keep :
      (db : Tables) (x : String) (calls : List Decision)
      → Closed (find_task x db.tasks)
      → Closed (find_task x (decide_all db calls).tasks)
  unfolding decide_all decide
  all_keep db x [] h = h
  all_keep db x (c ∷ cs) h =
      let checked = reason_of texts c.decision c.reason in
      all_keep (decide_checked texts db c.task_id c.decision c.principal c.time checked).0 x cs
        (checked_keeps db x c.task_id c.decision c.principal c.time checked h)

  -- A task that a reviewer has decided is not decided again while decisions alone change the tables:
  -- after any row of decisions on this task and on others, another one on it, by whomever and with
  -- whatever reason, is refused and changes nothing.
  pub decide_once :
      (db : Tables) (task_id : String) (first second : ReviewDecision)
      (reason reason' : Option String) (p q : Principal) (time later : ℕ) (between : List Decision)
      → is_decided (decide texts db task_id first reason p time).1 ≡ true
      → let after = decide_all (decide texts db task_id first reason p time).0 between in
        ((decide texts after task_id second reason' q later).0 ≡ after)
        × (is_decided (decide texts after task_id second reason' q later).1 ≡ false)
  unfolding decide
  decide_once db task_id first second reason reason' p q time later between h =
      let (decided_db, outcome) =
        decide_checked texts db task_id first p time (reason_of texts first reason) in
      later_refused (decide_all decided_db between) task_id second q later
        (reason_of texts second reason')
        (all_keep decided_db task_id between
          (checked_closes db task_id first p time (reason_of texts first reason) h))
