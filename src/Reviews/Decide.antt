-- ===== src/Reviews/Decide.antt =====
-- `ReviewDecisionService.decide` of backend/app/reviews/service.py: one transaction on the tables of
-- tasks, dispatches and audit records. The text of the reason is measured and stripped by parameters,
-- as is the evidence's JSON text written; the clock gives an aware time. A concurrent change of a
-- row, which becomes `ReviewVersionConflict`, is left out.
pub mod Once
mod Tests
use model_lib.Base.{
  ℕ, ◌+◌, String, Bool, true, false, not, ◌&&◌, ◌||◌, Option, none, some, List, [], ◌∷◌, leb, ltb,
  if◌then◌else◌,
}
use model_lib.Base.Eq.{◌==◌, nat_eq, string_eq}

pub data ReviewDecision : Type 0 where
  approve reject : ReviewDecision

pub data ReviewError : Type 0 where
  review_not_found review_already_decided review_dispatch_missing review_reason_required :
      ReviewError
  reason_too_long : ReviewError

pub record TaskRow : Type 0 where
  pub id : ℕ
  pub task_id : String
  pub status : String
  pub completed_at : Option ℕ

pub record DispatchRow : Type 0 where
  pub id : ℕ
  pub task_id : ℕ
  pub status : String
  pub version : ℕ

pub record AuditRow : Type 0 where
  pub task_id : ℕ
  pub dispatch_id : ℕ
  pub result : String
  pub reason : String
  pub evidence_json : String

pub record Tables : Type 0 where
  pub tasks : List TaskRow
  pub dispatches : List DispatchRow
  pub audit_records : List AuditRow

pub record Principal : Type 0 where
  pub subject_id : String
  pub display_name : String

pub record ReviewDecisionResult : Type 0 where
  pub task_id : String
  pub decision : ReviewDecision
  pub status : String
  pub reviewer : String
  pub decided_at : ℕ
  pub dispatch_version : ℕ

pub data Outcome : Type 0 where
  decided : ReviewDecisionResult → Outcome
  refused : ReviewError → Outcome

-- Texts, as the service measures and writes them; `evidence` is the JSON text of a decision, its time
-- and its reviewer.
pub record Texts : Type 0 where
  pub strip : String → String
  pub len : String → ℕ
  pub evidence : ReviewDecision → ℕ → Principal → String

pub terminal_status : ReviewDecision → String
terminal_status approve = "APPROVED"
terminal_status reject = "REJECTED"

find_task : String → List TaskRow → Option TaskRow
find_task task_id [] = none
find_task task_id (t ∷ ts) = if t.task_id == task_id then some t else find_task task_id ts

later_of : DispatchRow → Option DispatchRow → DispatchRow
later_of d none = d
later_of d (some e) = if ltb d.id e.id then e else d

-- The dispatch of a task with the largest id
latest_dispatch : ℕ → List DispatchRow → Option DispatchRow
latest_dispatch task [] = none
latest_dispatch task (d ∷ ds) =
    let rest = latest_dispatch task ds in if d.task_id == task then some (later_of d rest) else rest

set_task : String → String → ℕ → List TaskRow → List TaskRow
set_task task_id status time [] = []
set_task task_id status time (t ∷ ts) =
    let rest = set_task task_id status time ts in
    if t.task_id == task_id
    then record t { status = status; completed_at = some time } ∷ ts
    else t ∷ rest

-- A row that changes gets the next version (`version_id_col`).
changed_dispatch : String → DispatchRow → DispatchRow
changed_dispatch status d =
    if d.status == status then d else record d { status = status; version = d.version + 1 }

set_dispatch : ℕ → DispatchRow → List DispatchRow → List DispatchRow
set_dispatch id changed [] = []
set_dispatch id changed (d ∷ ds) =
    let rest = set_dispatch id changed ds in if d.id == id then changed ∷ ds else d ∷ rest

data Checked : Type 0 where
  accepted : String → Checked
  faulty : ReviewError → Checked

module _ (texts : Texts) where
  normalized : Option String → String
  normalized none = ""
  normalized (some reason) = texts.strip reason

  check_reason : ReviewDecision → String → Checked
  check_reason reject reason =
      if ltb 500 (texts.len reason)
      then faulty reason_too_long
      else if ltb (texts.len reason) 2
      then faulty review_reason_required
      else accepted reason
  check_reason approve reason =
      if ltb 500 (texts.len reason)
      then faulty reason_too_long
      else if reason == ""
      then accepted "人工复核已批准。"
      else accepted reason

  -- `_reason`
  reason_of : ReviewDecision → Option String → Checked
  reason_of decision reason = check_reason decision (normalized reason)

  decide_dispatch :
      Tables
      → TaskRow
      → ReviewDecision
      → String
      → Principal
      → ℕ
      → Option DispatchRow
      → Tables × Outcome
  decide_dispatch db t decision reason principal time none = (db, refused review_dispatch_missing)
  decide_dispatch db t decision reason principal time (some d) =
      let status = terminal_status decision in
      let changed = changed_dispatch status d in
      (
        record {
          tasks = set_task t.task_id status time db.tasks;
          dispatches = set_dispatch d.id changed db.dispatches;
          audit_records =
              record {
                task_id = t.id;
                dispatch_id = d.id;
                result = status;
                reason = reason;
                evidence_json = texts.evidence decision time principal;
              }
              ∷ db.audit_records;
        },
        decided (record {
          task_id = t.task_id;
          decision = decision;
          status = status;
          reviewer = principal.display_name;
          decided_at = time;
          dispatch_version = changed.version;
        }),
      )

  decide_task : Tables → ReviewDecision → String → Principal → ℕ → Option TaskRow → Tables × Outcome
  decide_task db decision reason principal time none = (db, refused review_not_found)
  decide_task db decision reason principal time (some t) =
      if not (t.status == "REVIEW_REQUIRED")
      then (db, refused review_already_decided)
      else decide_dispatch db t decision reason principal time (latest_dispatch t.id db.dispatches)

  decide_checked : Tables → String → ReviewDecision → Principal → ℕ → Checked → Tables × Outcome
  decide_checked db task_id decision principal time (faulty e) = (db, refused e)
  decide_checked db task_id decision principal time (accepted reason) =
      decide_task db decision reason principal time (find_task task_id db.tasks)

  pub decide : Tables → String → ReviewDecision → Option String → Principal → ℕ → Tables × Outcome
  decide db task_id decision reason principal time =
      decide_checked db task_id decision principal time (reason_of decision reason)
