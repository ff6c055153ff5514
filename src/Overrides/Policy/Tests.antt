-- ===== src/Overrides/Policy/Tests.antt =====
-- One override that the policy allows, and one that it refuses.
use model_lib.Base.{◌≡◌, refl, ◌↔◌, some}
use model_lib.Overrides.Policy.{
  stable, RuntimeThreadSnapshot, RuntimeOverrideCommand, GraphState, allowed, evaluate, refuse,
  rejected, override_value_invalid,
}
use model_lib.Overrides.Policy.Admissible.{IsAdmissible, evaluate-allowed_iff}

abbrev thread : RuntimeThreadSnapshot
thread = record { status = stable; current_node = some "environment"; next_node = some "capacity" }

abbrev breakdown : RuntimeOverrideCommand
breakdown = record {
  entity_type = "Vehicle";
  entity_id = "V-001";
  field = "status";
  old_value = "NORMAL";
  new_value = "BROKEN";
  expected_next_node = some "capacity";
}

abbrev graph_state : GraphState
graph_state = record { vehicle_id = some "V-001"; vehicle_status = some "NORMAL" }

evaluate-allowed_iff_example :
    ((evaluate breakdown thread graph_state).decision ≡ allowed)
    ↔ IsAdmissible breakdown thread graph_state
evaluate-allowed_iff_example = evaluate-allowed_iff breakdown thread graph_state

breakdown_is_allowed : (evaluate breakdown thread graph_state).decision ≡ allowed
unfolding evaluate
breakdown_is_allowed = refl

repair_is_refused :
    evaluate (record breakdown { new_value = "NORMAL" }) thread graph_state
    ≡ refuse rejected override_value_invalid
unfolding evaluate
repair_is_refused = refl
