-- ===== src/Idempotency/Ledger/Once.antt =====
-- Who is told to execute a task.
use model_lib.Base.{
  ℕ, String, ◌≡◌, refl, ap, ◌∙◌, ◌⊎◌, inl, inr, Bool, true, false, Option, none, some, List, [],
  ◌∷◌, arith, ◌||◌, if◌then◌else◌,
}
use model_lib.Base.Eq.{nat_eq, string_eq, eq_refl}
use model_lib.Idempotency.Ledger.{
  DispatchTask, Database, Result, ok, fails, IdempotencyDecision, IdempotencyState, new,
  in_progress, terminal, any, has_task_id, has_key, existing, task_breaks, add_rows, insert,
  begin_from, begin, update, with_status, new_task, set_status, mark_terminal, decision_of,
  read_again, is_terminal_status, find, consistent, first_of, key_differs, task_differs,
}
use model_lib.Idempotency.Ledger.Runs.{Step, began, changed, Reach, here, further}

abbrev is_new_state : IdempotencyState → Bool
is_new_state new = true
is_new_state _ = false

-- The answer `NEW`, which lets its caller execute the task.
abbrev pub is_new : Result IdempotencyDecision → Bool
is_new (fails e) = false
is_new (ok d) = is_new_state d.state

-- A test on the columns that identify a task.
abbrev Identifies : (DispatchTask → Bool) → Type 0
Identifies p =
    (t : DispatchTask) (status : String) (started completed : Bool) (now : ℕ)
    → p (with_status status started completed now t) ≡ p t

decision_of-is_old : (t : DispatchTask) → is_new (ok (decision_of t)) ≡ false
unfolding decision_of
decision_of-is_old t = ground arith

read_again-is_old : (r : Result (Option DispatchTask)) → is_new (read_again r) ≡ false
unfolding read_again
read_again-is_old (fails e) = refl
read_again-is_old (ok none) = refl
read_again-is_old (ok (some t)) = decision_of-is_old t

insert-adds :
    (now : Database) (t : DispatchTask)
    → is_new (insert now t).1 ≡ true
    → (insert now t).0 ≡ add_rows now t
unfolding insert
insert-adds now t h = ground (arith, read_again-is_old (existing now t.task_id t.idempotency_key))

begin_from-adds :
    (found : Result (Option DispatchTask)) (now : Database) (t : DispatchTask)
    → is_new (begin_from found now t).1 ≡ true
    → (begin_from found now t).0 ≡ add_rows now t
unfolding begin_from
begin_from-adds (fails e) now t h = ground arith
begin_from-adds (ok (some f)) now t h = ground (arith, decision_of-is_old f)
begin_from-adds (ok none) now t h = insert-adds now t h

taken-insert :
    (now : Database) (t : DispatchTask)
    → (any (has_task_id t.task_id) now.tasks || any (has_key t.idempotency_key) now.tasks) ≡ true
    → is_new (insert now t).1 ≡ false
unfolding insert task_breaks
taken-insert now t h = ground (arith, read_again-is_old (existing now t.task_id t.idempotency_key))

taken-begin_from :
    (found : Result (Option DispatchTask)) (now : Database) (t : DispatchTask)
    → (any (has_task_id t.task_id) now.tasks || any (has_key t.idempotency_key) now.tasks) ≡ true
    → is_new (begin_from found now t).1 ≡ false
unfolding begin_from
taken-begin_from (fails e) now t h = refl
taken-begin_from (ok (some f)) now t h = decision_of-is_old f
taken-begin_from (ok none) now t h = taken-insert now t h

module _ (p : DispatchTask → Bool) (identifies : Identifies p) where
  any-update :
      (x status : String) (started completed : Bool) (now : ℕ) (ts : List DispatchTask)
      → any p (update (with_status status started completed now) x ts) ≡ any p ts
  unfolding any update
  any-update x status started completed now [] = refl
  any-update x status started completed now (t ∷ ts) = ground (
    arith,
    identifies t status started completed now,
    any-update x status started completed now ts,
  )

  any-insert :
      (now : Database) (t : DispatchTask)
      → any p now.tasks ≡ true
      → any p (insert now t).0.tasks ≡ true
  unfolding insert add_rows any
  any-insert now t h = ground arith

  any-begin_from :
      (found : Result (Option DispatchTask)) (now : Database) (t : DispatchTask)
      → any p now.tasks ≡ true
      → any p (begin_from found now t).0.tasks ≡ true
  unfolding begin_from
  any-begin_from (fails e) now t h = h
  any-begin_from (ok (some f)) now t h = h
  any-begin_from (ok none) now t h = any-insert now t h

  any-set_status :
      (db : Database) (x status : String) (started completed : Bool) (now : ℕ)
      → any p db.tasks ≡ true
      → any p (set_status db x status started completed now).0.tasks ≡ true
  unfolding set_status
  any-set_status db x status started completed now h =
      ground (arith, any-update x status started completed now db.tasks)

  any-Step : {db next : Database} → Step db next → any p db.tasks ≡ true → any p next.tasks ≡ true
  unfolding begin
  any-Step (began seen now x order_id key anomaly_id assignee) h = any-begin_from _ now _ h
  any-Step (changed db x status started completed now) h =
      any-set_status db x status started completed now h

  any-Reach :
      {start db : Database} → Reach start db → any p start.tasks ≡ true → any p db.tasks ≡ true
  any-Reach here h = h
  any-Reach (further r s) h = any-Step s (any-Reach r h)

has_task_id-Identifies : (x : String) → Identifies (has_task_id x)
unfolding with_status
has_task_id-Identifies x t status started completed now = refl

has_key-Identifies : (x : String) → Identifies (has_key x)
unfolding with_status
has_key-Identifies x t status started completed now = refl

added_id :
    (db : Database) (t : DispatchTask) → any (has_task_id t.task_id) (add_rows db t).tasks ≡ true
unfolding any add_rows
added_id db t = ground (arith, eq_refl t.task_id)

added_key :
    (db : Database) (t : DispatchTask)
    → any (has_key t.idempotency_key) (add_rows db t).tasks ≡ true
unfolding any add_rows
added_key db t = ground (arith, eq_refl t.idempotency_key)

-- Once a session was told to execute a task, no later session with the same task or the same key is,
-- whatever the sessions in between did and whatever it had read before it wrote.
pub begin-new_once :
    (seen now : Database) (task_id : String) (order_id : ℕ) (key : String) (anomaly_id : Option ℕ)
    (assignee : Option String)
    → is_new (begin seen now task_id order_id key anomaly_id assignee).1 ≡ true
    → (db : Database) → Reach (begin seen now task_id order_id key anomaly_id assignee).0 db
    → (seen' : Database) (task_id' : String) (order_id' : ℕ) (key' : String)
      (anomaly_id' : Option ℕ) (assignee' : Option String)
    → (task_id' ≡ task_id) ⊎ (key' ≡ key)
    → is_new (begin seen' db task_id' order_id' key' anomaly_id' assignee').1 ≡ false
unfolding begin new_task
begin-new_once seen now task_id order_id key anomaly_id assignee h db r seen' task_id' order_id'
      key' anomaly_id' assignee' same =
    let row = new_task task_id order_id key anomaly_id assignee in
    let e = begin_from-adds (existing seen task_id key) now row h in
    let i =
      any-Reach (has_task_id task_id) (has_task_id-Identifies task_id) r
        (rw e (added_id now row)) in
    let j = any-Reach (has_key key) (has_key-Identifies key) r (rw e (added_key now row)) in
    taken-begin_from (existing seen' task_id' key') db
      (new_task task_id' order_id' key' anomaly_id' assignee')
      (elim same [ inl q ↦ rw q (ground (arith, i)) | inr q ↦ rw q (ground (arith, j)) ])

-- What a session is told about a task with a status.
pub known : String → String → String → Result IdempotencyDecision
known task_id key status = ok (record {
  state = if is_terminal_status status then terminal else in_progress;
  task_id = task_id;
  idempotency_key = key;
  existing_status = some status;
  should_execute = false;
})

decision_of-known :
    (t : DispatchTask) → ok (decision_of t) ≡ known t.task_id t.idempotency_key t.status
unfolding decision_of known
decision_of-known t = ground arith

find-first {ℓ} :
    {A : Type ℓ} (p : A → Bool) (x : A) (xs : List A) → p x ≡ true → find p (x ∷ xs) ≡ some x
unfolding find
find-first p x xs h = ground (arith, h)

consistent-first :
    (t : DispatchTask) → consistent (some t) (some t) t.task_id t.idempotency_key ≡ ok (some t)
unfolding consistent key_differs task_differs first_of
consistent-first t = ground (arith, eq_refl t.task_id, eq_refl t.idempotency_key)

existing-first :
    (db : Database) (t : DispatchTask) (ts : List DispatchTask)
    → db.tasks ≡ t ∷ ts
    → existing db t.task_id t.idempotency_key ≡ ok (some t)
unfolding existing
existing-first db t ts e =
    ap
      (λ rows.
        consistent (find (has_task_id t.task_id) rows) (find (has_key t.idempotency_key) rows)
          t.task_id t.idempotency_key)
      e
    ∙ ap
        (λ found.
          consistent found (find (has_key t.idempotency_key) (t ∷ ts)) t.task_id t.idempotency_key)
        (find-first (has_task_id t.task_id) t ts (eq_refl t.task_id))
    ∙ ap (λ found. consistent (some t) found t.task_id t.idempotency_key)
        (find-first (has_key t.idempotency_key) t ts (eq_refl t.idempotency_key))
    ∙ consistent-first t

begin-first :
    (db now : Database) (t : DispatchTask) (ts : List DispatchTask) (order_id : ℕ)
    (anomaly_id : Option ℕ) (assignee : Option String)
    → db.tasks ≡ t ∷ ts
    → begin db now t.task_id order_id t.idempotency_key anomaly_id assignee
      ≡ (now, known t.task_id t.idempotency_key t.status)
unfolding begin begin_from
begin-first db now t ts order_id anomaly_id assignee e =
    ap
      (λ found.
        begin_from found now (new_task t.task_id order_id t.idempotency_key anomaly_id assignee))
      (existing-first db t ts e)
    ∙ ap (λ d. (now, d)) (decision_of-known t)

mark_terminal-first :
    (db : Database) (t : DispatchTask) (ts : List DispatchTask) (status : String) (time : ℕ)
    → db.tasks ≡ t ∷ ts
    → (mark_terminal db t.task_id status time).0.tasks ≡ with_status status false true time t ∷ ts
unfolding mark_terminal set_status any update
mark_terminal-first db t ts status time e =
    rw (e, mark_terminal, set_status, any, update, eq_refl t.task_id) refl

-- The session that was told to execute a task and then records a status for it: a session of the same
-- task in between is told that the task is pending, and one afterwards is told of the status, as
-- terminal exactly if it is a terminal status. Neither changes the tables.
pub begin-replayed :
    (seen now : Database) (task_id : String) (order_id : ℕ) (key : String) (anomaly_id : Option ℕ)
    (assignee : Option String) (status : String) (time : ℕ)
    → is_new (begin seen now task_id order_id key anomaly_id assignee).1 ≡ true
    → let first = (begin seen now task_id order_id key anomaly_id assignee).0 in
      let ended = (mark_terminal first task_id status time).0 in
      (begin first first task_id order_id key anomaly_id assignee
        ≡ (first, known task_id key "PENDING"))
      × (begin ended ended task_id order_id key anomaly_id assignee
          ≡ (ended, known task_id key status))
unfolding begin new_task add_rows with_status
begin-replayed seen now task_id order_id key anomaly_id assignee status time h =
    let row = new_task task_id order_id key anomaly_id assignee in
    let first = (begin_from (existing seen task_id key) now row).0 in
    let e =
      ap (λ (d : Database). d.tasks) (begin_from-adds (existing seen task_id key) now row h) in
    let ended = (mark_terminal first task_id status time).0 in
    (
      begin-first first first row now.tasks order_id anomaly_id assignee e,
      begin-first ended ended (with_status status false true time row) now.tasks order_id anomaly_id
          assignee (mark_terminal-first first row now.tasks status time e),
    )
