-- ===== src/Audit/Rules.antt =====
-- `audit` and `_evaluate` of backend/app/audit/service.py. How a decimal is read from a value, by
-- `Decimal(str(value))`, and how two decimals compare is a parameter. A status that is a list or a
-- mapping, which cannot be looked up in a set, counts as a status that is not in the set.
pub mod Approval
pub mod Safety
mod Tests
use model_lib.Base.{
  ℕ, String, Bool, true, false, not, ◌&&◌, ◌||◌, Option, none, some, List, [], ◌∷◌, if◌then◌else◌,
}
use model_lib.Base.Eq.{◌==◌, nat_eq, string_eq, option_eq}
use model_lib.Audit.Value.{
  Value, Entries, get, mapping_of, integer_of, is_true, is_null, is_text, is_empty_sequence,
  text_of, text_key, string_list, has_memory, candidate,
}
use model_lib.Audit.Path.{path_connects, path_edges_are_open, is_disjoint, is_empty}

pub record AuditChecks : Type 0 where
  pub route_consistency : Bool
  pub memory_consistency : Bool
  pub fallback_consistency : Bool
  pub dispatch_execution : Bool
  pub vehicle_assignment : Bool
  pub capacity_constraint : Bool
  pub route_connectivity : Bool
  pub blocked_edge_exclusion : Bool

pub data AuditStatus : Type 0 where
  approved rejected review_required : AuditStatus

pub record Verdict : Type 0 where
  pub status : AuditStatus
  pub reason : String
  pub requires_manual_review : Bool

-- A rule sets checks and may end the evaluation.
abbrev pub Rule : Type 0
Rule = AuditChecks → AuditChecks × Option Verdict

abbrev reject : String → Option Verdict
reject reason = some (record { status = rejected; reason = reason; requires_manual_review = true })

-- Rejects where the first of two conditions fails, or else the second.
abbrev first_failure : Bool → String → Bool → String → Option Verdict
first_failure first first_reason second second_reason =
    if not first then reject first_reason else if not second then reject second_reason else none

-- A rule after what came before it, unless that has ended the evaluation.
abbrev and_then : AuditChecks × Option Verdict → Rule → AuditChecks × Option Verdict
and_then (c, some v) rule = (c, some v)
and_then (c, none) rule = rule c

-- `a or b`
abbrev or_text : Option String → Option String → Option String
or_text none b = b
or_text (some a) b = some a

abbrev pub is_some : Option String → Bool
is_some none = false
is_some (some a) = true

pub is_review_code : Option String → Bool
is_review_code code =
    code == some "DISPATCH_CONFLICT"
    || code == some "DISPATCH_VERSION_CONFLICT"
    || code == some "VEHICLE_RESERVATION_CONFLICT"

review_rule : Entries → Option String → Rule
review_rule evidence decision c =
    if decision == some "MANUAL_REVIEW"
      || is_true (get evidence "requires_manual_review")
      || is_review_code (text_key evidence "error_code")
    then (
      c,
      some (record {
        status = review_required;
        reason = "Dispatch requires manual review.";
        requires_manual_review = true;
      }),
    )
    else (c, none)

pub issue_of : Entries → Option String
issue_of evidence =
    or_text (text_key evidence "identified_issue") (text_key evidence "anomaly_type")

pub dispatch_of : Entries → Entries
dispatch_of evidence = mapping_of (get evidence "dispatch_result")

-- The vehicle that broke down.
pub original_vehicle : Entries → Option String
original_vehicle evidence =
    or_text (text_key (dispatch_of evidence) "original_vehicle_id") (text_key evidence "vehicle_id")

pub target_vehicle : Entries → Option String
target_vehicle evidence = text_key (dispatch_of evidence) "target_vehicle_id"

target_driver : Entries → Option String
target_driver evidence = text_key (dispatch_of evidence) "target_driver_id"

chosen : Entries → Entries
chosen evidence = candidate (get evidence "candidate_vehicles") (target_vehicle evidence)

driver_is_free : Value → Bool
driver_is_free v = is_text v "ON_DUTY" || is_text v "AVAILABLE"

assignment_holds : Entries → Bool
assignment_holds evidence =
    is_some (original_vehicle evidence)
    && (is_some (target_vehicle evidence)
        && (not (target_vehicle evidence == original_vehicle evidence)
            && (text_key (chosen evidence) "vehicle_id" == text_key evidence "selected_vehicle_id"
                && (text_key evidence "selected_vehicle_id" == target_vehicle evidence
                    && (text_key (chosen evidence) "driver_id"
                          == text_key evidence "selected_driver_id"
                        && (text_key evidence "selected_driver_id" == target_driver evidence
                            && (is_text (get (chosen evidence) "vehicle_status") "AVAILABLE"
                                && (driver_is_free (get (chosen evidence) "driver_status")
                                    && (is_true (get (chosen evidence) "eligible")
                                        && is_empty_sequence
                                            (get (chosen evidence) "exclusion_reasons"))))))))))

remaining_value : Entries → Value
remaining_value vehicle =
    if is_null (get vehicle "remaining_capacity_kg")
    then get vehicle "remaining_load_kg"
    else get vehicle "remaining_capacity_kg"

path_of : Entries → Entries
path_of evidence = mapping_of (get evidence "recommended_path")

pub edge_ids_of : Entries → List String
edge_ids_of evidence = string_list (get (path_of evidence) "edge_ids")

pub node_ids_of : Entries → List String
node_ids_of evidence = string_list (get (path_of evidence) "node_ids")

pub blocked_of : Entries → List String
blocked_of evidence = string_list (get evidence "blocked_edge_ids")

pub connectivity_holds : Entries → Bool
connectivity_holds evidence =
    path_connects (node_ids_of evidence) (edge_ids_of evidence) (get evidence "road_network_edges")

pub exclusion_holds : Entries → Bool
exclusion_holds evidence =
    is_disjoint (edge_ids_of evidence) (blocked_of evidence)
    && path_edges_are_open (edge_ids_of evidence) (get evidence "road_network_edges")

path_rule : Entries → Rule
path_rule evidence c =
    if issue_of evidence == some "ROAD_BLOCKED" || not (is_empty (blocked_of evidence))
    then (
      record c {
        route_connectivity = connectivity_holds evidence;
        blocked_edge_exclusion = exclusion_holds evidence;
      },
      first_failure (connectivity_holds evidence)
          "Recommended path is not connected in the road network." (exclusion_holds evidence)
          "Recommended path includes a blocked edge.",
    )
    else (c, none)

no_safe_route_rule : Option String → Bool → Rule
no_safe_route_rule decision executed c =
    if decision == some "NO_SAFE_ROUTE" && executed
    then (
      record c { route_consistency = false },
      reject "No-safe-route decision cannot execute a dispatch.",
    )
    else (c, none)

-- Sets a check of the route and rejects where it fails.
route_check : Bool → String → Rule
route_check holds reason c =
    (record c { route_consistency = holds }, if holds then none else reject reason)

reroute_rule : Entries → Option String → Bool → Option String → Rule
reroute_rule evidence decision executed target c =
    if decision == some "REROUTE"
    then route_check
        (is_some (text_key evidence "recommended_route")
          && (executed && target == text_key evidence "recommended_route"))
        "Recommended route and dispatch target do not match." c
    else (c, none)

keep_route_rule : Entries → Option String → Bool → Option String → Rule
keep_route_rule evidence decision executed target c =
    if decision == some "KEEP_ROUTE"
    then route_check (executed && target == text_key evidence "route_id")
        "Keep-route dispatch target does not match the original route." c
    else (c, none)

adopted : Option String → Value → Bool
adopted none memories = false
adopted (some memory_id) memories = has_memory memories memory_id

pub memory_holds : Entries → Bool
memory_holds evidence =
    adopted (text_key evidence "adopted_memory_id") (get evidence "memory_results")

memory_rule : Entries → Rule
memory_rule evidence c =
    if is_true (get evidence "memory_adopted")
    then (
      record c { memory_consistency = memory_holds evidence },
      if memory_holds evidence
          then none
          else reject "Adopted memory is absent from recalled memory results.",
    )
    else (c, none)

fallback_rule : Entries → Rule
fallback_rule evidence c =
    if is_true (get evidence "fallback_used")
    then (
      record c { fallback_consistency = is_some (text_key evidence "fallback_reason") },
      if is_some (text_key evidence "fallback_reason")
          then none
          else reject "Fallback dispatch requires a fallback reason.",
    )
    else (c, none)

-- No rule has ended the evaluation.
conclude : AuditChecks × Option Verdict → AuditChecks × Verdict
conclude (c, some v) = (c, v)
conclude (c, none) = (
  c,
  record { status = approved; reason = "Audit checks passed."; requires_manual_review = false },
)

initial_checks : Bool → AuditChecks
initial_checks executed = record {
  route_consistency = true;
  memory_consistency = true;
  fallback_consistency = true;
  dispatch_execution = executed;
  vehicle_assignment = true;
  capacity_constraint = true;
  route_connectivity = true;
  blocked_edge_exclusion = true;
}

module _ {Decimal : Type 0} (decimal : Value → Option Decimal)
    (at_least : Decimal → Decimal → Bool) where
  enough : Option Decimal → Option Decimal → Bool
  enough (some cargo) (some remaining) = at_least remaining cargo
  enough _ _ = false

  capacity_holds : Entries → Bool
  capacity_holds evidence =
      enough (decimal (get evidence "cargo_weight_kg"))
        (decimal (remaining_value (chosen evidence)))
      && (not (text_key evidence "cargo_type" == some "COLD_CHAIN")
          || text_key (chosen evidence) "cargo_capability" == some "COLD_CHAIN")

  breakdown_rule : Entries → Rule
  breakdown_rule evidence c =
      if issue_of evidence == some "VEHICLE_BREAKDOWN"
      then (
        record c {
          vehicle_assignment = assignment_holds evidence;
          capacity_constraint = capacity_holds evidence;
        },
        first_failure (assignment_holds evidence) "Replacement vehicle assignment is inconsistent."
            (capacity_holds evidence)
            "Replacement vehicle capacity or cargo capability is invalid.",
      )
      else (c, none)

  evaluate : Entries → Option String → Bool → Option String → AuditChecks → AuditChecks × Verdict
  evaluate evidence decision executed target c =
      let reviewed = review_rule evidence decision c in
      let replaced = and_then reviewed (breakdown_rule evidence) in
      let connected = and_then replaced (path_rule evidence) in
      let safe = and_then connected (no_safe_route_rule decision executed) in
      let rerouted = and_then safe (reroute_rule evidence decision executed target) in
      let kept = and_then rerouted (keep_route_rule evidence decision executed target) in
      let remembered = and_then kept (memory_rule evidence) in
      conclude (and_then remembered (fallback_rule evidence))

  -- `audit`, up to the record that it writes.
  pub audit_checks : Entries → AuditChecks × Verdict
  audit_checks evidence =
      let executed = is_true (get (dispatch_of evidence) "executed") in
      evaluate evidence (text_key evidence "decision") executed
        (text_key (dispatch_of evidence) "target_route_id") (initial_checks executed)
