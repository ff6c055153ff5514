-- ===== src/Overrides/Policy.antt =====
-- backend/app/runtime_overrides/policy.py: which override a runtime thread accepts. The graph state
-- is read at two keys; a value that is no text differs from every text and is `none` here, as a
-- missing one is.
pub mod Admissible
mod Tests
use model_lib.Base.{
  ℕ, String, Bool, true, false, not, ◌&&◌, ◌||◌, Option, none, some, if◌then◌else◌,
}
use model_lib.Base.Eq.{◌==◌, string_eq, option_eq}

-- `RuntimeThreadStatus` of runtime_threads/models.py
pub data RuntimeThreadStatus : Type 0 where
  running stable overriding terminal : RuntimeThreadStatus

-- The fields of `RuntimeThreadSnapshot` that the policy reads.
pub record RuntimeThreadSnapshot : Type 0 where
  pub status : RuntimeThreadStatus
  pub current_node : Option String
  pub next_node : Option String

-- The fields of `RuntimeOverrideCommand` that the policy reads.
pub record RuntimeOverrideCommand : Type 0 where
  pub entity_type : String
  pub entity_id : String
  pub field : String
  pub old_value : String
  pub new_value : String
  pub expected_next_node : Option String

pub record GraphState : Type 0 where
  pub vehicle_id : Option String
  pub vehicle_status : Option String

pub data RuntimeOverrideDecision : Type 0 where
  allowed rejected needs_different_boundary : RuntimeOverrideDecision

pub data ErrorCode : Type 0 where
  thread_terminal thread_not_stable override_field_not_allowed : ErrorCode
  runtime_next_node_conflict override_value_invalid runtime_state_precondition_failed : ErrorCode

pub record OverridePolicyResult : Type 0 where
  pub decision : RuntimeOverrideDecision
  pub error_code : Option ErrorCode

abbrev pub refuse : RuntimeOverrideDecision → ErrorCode → OverridePolicyResult
refuse d e = record { decision = d; error_code = some e }

-- `(command.entity_type, command.field) == ALLOWED_TARGET`
is_allowed_target : RuntimeOverrideCommand → Bool
is_allowed_target c = c.entity_type == "Vehicle" && c.field == "status"

-- `(thread.current_node, thread.next_node) == ALLOWED_BOUNDARY`
is_allowed_boundary : RuntimeThreadSnapshot → Bool
is_allowed_boundary t = t.current_node == some "environment" && t.next_node == some "capacity"

-- `(old_value, new_value) in ALLOWED_TRANSITIONS`
is_allowed_transition : String → String → Bool
is_allowed_transition old new =
    (old == "NORMAL" && new == "BROKEN")
    || (old == "NORMAL" && new == "UNAVAILABLE")
    || (old == "NORMAL" && new == "MAINTENANCE")

-- `expected_next_node is not None and expected_next_node != thread.next_node`
next_node_conflicts : Option String → Option String → Bool
next_node_conflicts none next = false
next_node_conflicts (some expected) next = not (some expected == next)

evaluate_stable : RuntimeOverrideCommand → RuntimeThreadSnapshot → GraphState → OverridePolicyResult
evaluate_stable c t s =
    if not (is_allowed_target c)
    then refuse rejected override_field_not_allowed
    else if not (is_allowed_boundary t)
    then refuse needs_different_boundary thread_not_stable
    else if next_node_conflicts c.expected_next_node t.next_node
    then refuse needs_different_boundary runtime_next_node_conflict
    else if not (is_allowed_transition c.old_value c.new_value)
    then refuse rejected override_value_invalid
    else if not (s.vehicle_id == some c.entity_id)
    then refuse rejected runtime_state_precondition_failed
    else if not (s.vehicle_status == some c.old_value)
    then refuse rejected runtime_state_precondition_failed
    else record { decision = allowed; error_code = none }

evaluate_in :
    RuntimeThreadStatus
    → RuntimeOverrideCommand
    → RuntimeThreadSnapshot
    → GraphState
    → OverridePolicyResult
evaluate_in terminal c t s = refuse rejected thread_terminal
evaluate_in running c t s = refuse needs_different_boundary thread_not_stable
evaluate_in overriding c t s = refuse needs_different_boundary thread_not_stable
evaluate_in stable c t s = evaluate_stable c t s

pub evaluate : RuntimeOverrideCommand → RuntimeThreadSnapshot → GraphState → OverridePolicyResult
unfolding evaluate_in evaluate_stable is_allowed_target is_allowed_boundary is_allowed_transition
    next_node_conflicts
evaluate c t s = evaluate_in t.status c t s
