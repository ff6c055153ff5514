-- ===== src/Audit/Records/Once.antt =====
-- Auditing a dispatch again.
use model_lib.Base.{ℕ, String, ◌≡◌, refl, ap, ◌∙◌, Option, none, some, arith}
use model_lib.Base.Eq.{nat_eq, string_eq, eq_refl}
use model_lib.Audit.Records.{
  AuditTables, Finding, task_row, find_record, is_for, new_record, write_new, for_task,
  persist_if_possible,
}

write_new-again :
    (db : AuditTables) (found : Option ℕ) (id id' task dispatch_id : ℕ) (f g : Finding)
    → find_record db.records task dispatch_id ≡ found
    → let first = write_new db found id task dispatch_id f in
      write_new first.0 (find_record first.0.records task dispatch_id) id' task dispatch_id g
      ≡ first
unfolding write_new find_record is_for new_record
write_new-again db (some existing) id id' task dispatch_id f g e = rw (e, write_new) refl
write_new-again db none id id' task dispatch_id f g e =
    rw (write_new, find_record, is_for, eq_refl task, eq_refl dispatch_id) refl

tasks-for_task :
    (db : AuditTables) (task : Option ℕ) (id dispatch_id : ℕ) (f : Finding)
    → (for_task db task id dispatch_id f).0.tasks ≡ db.tasks
unfolding for_task write_new
tasks-for_task db none id dispatch_id f = refl
tasks-for_task db (some task) id dispatch_id f = ground arith

for_task-again :
    (db : AuditTables) (task : Option ℕ) (id id' dispatch_id : ℕ) (f g : Finding)
    → let first = for_task db task id dispatch_id f in
      for_task first.0 task id' dispatch_id g ≡ first
unfolding for_task
for_task-again db none id id' dispatch_id f g = refl
for_task-again db (some task) id id' dispatch_id f g =
    write_new-again db (find_record db.records task dispatch_id) id id' task dispatch_id f g refl

-- Auditing again adds nothing: whatever the later audit found, and whatever id its record would get,
-- the tables stay as the first audit left them, and the answer is the first one's.
pub persist_if_possible-again :
    (db : AuditTables) (id id' : ℕ) (task_id : Option String) (dispatch_id : Option ℕ)
    (f g : Finding)
    → let first = persist_if_possible db id task_id dispatch_id f in
      persist_if_possible first.0 id' task_id dispatch_id g ≡ first
unfolding persist_if_possible
persist_if_possible-again db id id' none d f g = refl
persist_if_possible-again db id id' (some t) none f g = refl
persist_if_possible-again db id id' (some t) (some d) f g =
    let first = for_task db (task_row db.tasks t) id d f in
    ap (λ rows. for_task first.0 (task_row rows t) id' d g)
      (tasks-for_task db (task_row db.tasks t) id d f)
    ∙ for_task-again db (task_row db.tasks t) id id' d f g
