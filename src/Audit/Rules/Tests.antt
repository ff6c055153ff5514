-- ===== src/Audit/Rules/Tests.antt =====
-- An audit on concrete evidence: a vehicle broke down, and a road on the way is blocked.
use model_lib.Base.{
  String, ℕ, ◌≡◌, ◌≢◌, ◌↔◌, refl, inr, Bool, true, false, Option, none, some, List, [], ◌∷◌, leb,
}
use model_lib.Audit.Value.{
  Value, flag, integer, text, sequence, mapping, nil, cons, Entries, no_entries, entry, get,
  mapping_of, nonempty, text_of, integer_of, is_true, is_null, is_text, is_empty_sequence,
  cons_text, texts, string_list, is_memory, any_memory, has_memory, is_vehicle, first_vehicle,
  candidate,
}
use model_lib.Audit.Path.{
  later_or, own_edge, last_edge, edge_by_id, connects, follows, is_empty, path_connects,
  status_is_allowed, all_open, path_edges_are_open, contains, is_disjoint,
}
use model_lib.Audit.Path.Walks.{Walks, path_connects-Walks}
use model_lib.Audit.Rules.{
  approved, is_some, is_review_code, review_rule, issue_of, dispatch_of, original_vehicle,
  target_vehicle, target_driver, chosen, driver_is_free, assignment_holds, remaining_value, path_of,
  edge_ids_of, node_ids_of, blocked_of, connectivity_holds, exclusion_holds, path_rule,
  no_safe_route_rule, route_check, reroute_rule, keep_route_rule, adopted, memory_holds,
  memory_rule, fallback_rule, conclude, initial_checks, enough, capacity_holds, breakdown_rule,
  evaluate, audit_checks,
}
use model_lib.Audit.Rules.Approval.{Borne, audit_checks-Borne}
use model_lib.Audit.Rules.Safety.{approved_path, approved_replacement}
use model_lib.Audit.Records.{AuditTables, Finding, Persisted, persist_if_possible}
use model_lib.Audit.Records.Once.{persist_if_possible-again}

abbrev decimal : Value → Option ℕ
decimal (integer n) = some n
decimal _ = none

abbrev at_least : ℕ → ℕ → Bool
at_least a b = leb b a

abbrev edges : Value
edges = sequence (
    cons
      (mapping (
        entry "edge_id" (text "e1") (
          entry "from_node_id" (text "a")
            (entry "to_node_id" (text "b") (entry "status" (text "OPEN") no_entries)))))
      nil)

abbrev evidence : Entries
evidence = entry "anomaly_type" (text "VEHICLE_BREAKDOWN") (
    entry "vehicle_id" (text "v1") (
      entry "selected_vehicle_id" (text "v2") (
        entry "selected_driver_id" (text "d2") (
          entry "cargo_weight_kg" (integer 5) (
            entry "dispatch_result"
              (mapping (
                entry "target_vehicle_id" (text "v2")
                  (entry "target_driver_id" (text "d2") no_entries)))
              (entry "candidate_vehicles"
                (sequence (
                  cons
                    (mapping (
                      entry "vehicle_id" (text "v2") (
                        entry "driver_id" (text "d2") (
                          entry "vehicle_status" (text "AVAILABLE") (
                            entry "driver_status" (text "ON_DUTY") (
                              entry "eligible" (flag true) (
                                entry "exclusion_reasons" (sequence nil)
                                  (entry "remaining_capacity_kg" (integer 9) no_entries))))))))
                    nil))
                (entry "blocked_edge_ids" (sequence (cons (text "e9") nil)) (
                  entry "recommended_path"
                    (mapping (
                      entry "edge_ids" (sequence (cons (text "e1") nil)) (
                        entry "node_ids" (sequence (cons (text "a") (cons (text "b") nil)))
                          no_entries)))
                    (entry "road_network_edges" edges no_entries)))))))))

is_approved : (audit_checks decimal at_least evidence).1.status ≡ approved
unfolding get mapping_of nonempty text_of integer_of is_true is_null is_text is_empty_sequence
    cons_text texts string_list is_memory any_memory has_memory is_vehicle first_vehicle candidate
    later_or own_edge last_edge edge_by_id connects follows is_empty path_connects status_is_allowed
    all_open path_edges_are_open contains is_disjoint is_review_code review_rule issue_of
    dispatch_of original_vehicle target_vehicle target_driver chosen driver_is_free assignment_holds
    remaining_value path_of edge_ids_of node_ids_of blocked_of connectivity_holds exclusion_holds
    path_rule no_safe_route_rule route_check reroute_rule keep_route_rule adopted memory_holds
    memory_rule fallback_rule conclude initial_checks enough capacity_holds breakdown_rule evaluate
    audit_checks
is_approved = refl

audit_checks-Borne_example :
    Borne
      (audit_checks decimal at_least evidence).0
      (audit_checks decimal at_least evidence).1.status
audit_checks-Borne_example = audit_checks-Borne decimal at_least evidence

blocked : is_empty (blocked_of evidence) ≡ false
unfolding is_empty blocked_of string_list get texts cons_text
blocked = refl

approved_path_example :
    Walks (get evidence "road_network_edges") (node_ids_of evidence) (edge_ids_of evidence)
    × (is_disjoint (edge_ids_of evidence) (blocked_of evidence) ≡ true)
    × (path_edges_are_open (edge_ids_of evidence) (get evidence "road_network_edges") ≡ true)
approved_path_example = approved_path decimal at_least evidence is_approved (inr blocked)

breakdown : issue_of evidence ≡ some "VEHICLE_BREAKDOWN"
unfolding issue_of get text_of nonempty
breakdown = refl

approved_replacement_example :
    (is_some (target_vehicle evidence) ≡ true)
    × (target_vehicle evidence ≢ original_vehicle evidence)
approved_replacement_example = approved_replacement decimal at_least evidence is_approved breakdown

path_connects-Walks_example :
    (path_connects ("a" ∷ "b" ∷ []) ("e1" ∷ []) edges ≡ true)
    ↔ (◌≢◌ {A = List String} ("e1" ∷ []) [] × Walks edges ("a" ∷ "b" ∷ []) ("e1" ∷ []))
path_connects-Walks_example = path_connects-Walks edges ("a" ∷ "b" ∷ []) ("e1" ∷ [])

abbrev tables : AuditTables
tables = record { tasks = record { id = 1; task_id = "task-1" } ∷ []; records = [] }

abbrev finding : Finding
finding = record { status = "APPROVED"; reason = "Audit checks passed."; evidence_json = "{}" }

abbrev once : AuditTables × Persisted
once = persist_if_possible tables 10 (some "task-1") (some 4) finding

persist_if_possible-again_example :
    persist_if_possible once.0 11 (some "task-1") (some 4) finding ≡ once
persist_if_possible-again_example =
    persist_if_possible-again tables 10 11 (some "task-1") (some 4) finding finding
