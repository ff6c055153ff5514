-- ===== src/Reviews/Decide/Tests.antt =====
-- A review of one dispatch.
use model_lib.Base.{◌≡◌, refl, false, true, none, some, List, [], ◌∷◌}
use model_lib.Reviews.Decide.{
  approve, reject, Tables, Principal, Texts, decide, decide_checked, reason_of, check_reason,
  decide_task, find_task, decide_dispatch, latest_dispatch,
}
use model_lib.Reviews.Decide.Once.{is_decided, Decision, decide_all, decide_once}

abbrev texts : Texts
texts = record { strip = λ s. s; len = λ s. 12; evidence = λ d time p. "{}" }

abbrev tables : Tables
tables = record {
  tasks =
      record { id = 1; task_id = "task-1"; status = "REVIEW_REQUIRED"; completed_at = none }
      ∷ record { id = 2; task_id = "task-2"; status = "REVIEW_REQUIRED"; completed_at = none }
      ∷ [];
  dispatches =
      record { id = 4; task_id = 1; status = "REVIEW_REQUIRED"; version = 1 }
      ∷ record { id = 5; task_id = 2; status = "REVIEW_REQUIRED"; version = 1 }
      ∷ [];
  audit_records = [];
}

abbrev reviewer : Principal
reviewer = record { subject_id = "user-1"; display_name = "Reviewer" }

first_decides :
    is_decided (decide texts tables "task-1" reject (some "not allowed") reviewer 5).1 ≡ true
unfolding decide decide_checked reason_of check_reason decide_task find_task decide_dispatch
    latest_dispatch
first_decides = refl

abbrev between : List Decision
between =
    record { task_id = "task-2"; decision = approve; reason = none; principal = reviewer; time = 6 }
    ∷ record {
      task_id = "task-1";
      decision = approve;
      reason = none;
      principal = reviewer;
      time = 7;
    }
    ∷ []

decide_once_example :
    let decided = (decide texts tables "task-1" reject (some "not allowed") reviewer 5).0 in
    let after = decide_all texts decided between in
    ((decide texts after "task-1" approve none reviewer 9).0 ≡ after)
    × (is_decided (decide texts after "task-1" approve none reviewer 9).1 ≡ false)
decide_once_example =
    decide_once texts tables "task-1" reject approve (some "not allowed") none reviewer reviewer 5 9
      between first_decides
