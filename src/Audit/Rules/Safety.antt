-- ===== src/Audit/Rules/Safety.antt =====
-- What an approval guarantees.
use model_lib.Base.{String, ◌≡◌, ◌≢◌, ◌⊎◌, Bool, true, false, Option, none, some, arith}
use model_lib.Base.Eq.{string_eq, option_eq, ==_iff}
use model_lib.Audit.Value.{Value, Entries, get}
use model_lib.Audit.Path.{path_edges_are_open, is_disjoint, is_empty}
use model_lib.Audit.Path.Walks.{Walks, path_connects_lem}
use model_lib.Audit.Rules.{
  AuditChecks, approved, Verdict, Rule, and_then, review_rule, path_rule, no_safe_route_rule,
  reroute_rule, keep_route_rule, memory_rule, fallback_rule, conclude, breakdown_rule, evaluate,
  audit_checks, connectivity_holds, exclusion_holds, is_some, issue_of, assignment_holds,
  capacity_holds, blocked_of, edge_ids_of, node_ids_of, original_vehicle, target_vehicle,
}

-- No verdict yet, or one that does not approve.
abbrev Refuses : AuditChecks × Option Verdict → Type 0
Refuses (c, none) = Unit
Refuses (c, some v) = v.status ≢ approved

-- Without a verdict, or with one that approves, a condition holds.
abbrev Grants : Type 0 → AuditChecks × Option Verdict → Type 0
Grants P (c, none) = P
Grants P (c, some v) = v.status ≡ approved → P

Refuses-and_then :
    (x : AuditChecks × Option Verdict) (rule : Rule)
    → ((c : AuditChecks) → Refuses (rule c))
    → Refuses x
    → Refuses (and_then x rule)
Refuses-and_then (c, some v) rule k h = h
Refuses-and_then (c, none) rule k h = k c

module _ (P : Type 0) where
  Grants-of : (x : AuditChecks × Option Verdict) → P → Grants P x
  Grants-of (c, none) p = p
  Grants-of (c, some v) p = λ h. p

  -- The rule that grants the condition.
  Grants-here :
      (x : AuditChecks × Option Verdict) (rule : Rule)
      → ((c : AuditChecks) → Grants P (rule c))
      → Refuses x
      → Grants P (and_then x rule)
  Grants-here (c, none) rule k h = k c
  Grants-here (c, some v) rule k h = λ q. absurd (h q)

  Grants-later :
      (x : AuditChecks × Option Verdict) (rule : Rule) → Grants P x → Grants P (and_then x rule)
  Grants-later (c, none) rule h = Grants-of (rule c) h
  Grants-later (c, some v) rule h = h

  Grants-conclude :
      (x : AuditChecks × Option Verdict) → Grants P x → (conclude x).1.status ≡ approved → P
  unfolding conclude
  Grants-conclude (c, none) h q = h
  Grants-conclude (c, some v) h q = h q

review_rule-Refuses :
    (e : Entries) (d : Option String) (c : AuditChecks) → Refuses (review_rule e d c)
unfolding review_rule
review_rule-Refuses e d c = ground arith

-- Where a road is blocked, the recommended path holds.
abbrev PathHolds : Entries → Type 0
PathHolds e =
    (issue_of e ≡ some "ROAD_BLOCKED") ⊎ (is_empty (blocked_of e) ≡ false)
    → (connectivity_holds e ≡ true) × (exclusion_holds e ≡ true)

path_rule-Grants : (e : Entries) (c : AuditChecks) → Grants (PathHolds e) (path_rule e c)
unfolding path_rule
path_rule-Grants e c = ground (arith, ==_iff (issue_of e) (some "ROAD_BLOCKED"))

module _ {Decimal : Type 0} (decimal : Value → Option Decimal)
    (at_least : Decimal → Decimal → Bool) where
  breakdown_rule-Refuses :
      (e : Entries) (c : AuditChecks) → Refuses (breakdown_rule decimal at_least e c)
  unfolding breakdown_rule
  breakdown_rule-Refuses e c = ground arith

  -- Where a vehicle broke down, the replacement holds.
  abbrev ReplacementHolds : Entries → Type 0
  ReplacementHolds e =
      issue_of e ≡ some "VEHICLE_BREAKDOWN"
      → (assignment_holds e ≡ true) × (capacity_holds decimal at_least e ≡ true)

  breakdown_rule-Grants :
      (e : Entries) (c : AuditChecks)
      → Grants (ReplacementHolds e) (breakdown_rule decimal at_least e c)
  unfolding breakdown_rule
  breakdown_rule-Grants e c = ground (arith, ==_iff (issue_of e) (some "VEHICLE_BREAKDOWN"))

  evaluate-path :
      (e : Entries) (d : Option String) (b : Bool) (t : Option String) (c : AuditChecks)
      → (evaluate decimal at_least e d b t c).1.status ≡ approved
      → PathHolds e
  unfolding evaluate
  evaluate-path e d b t c = Grants-conclude (PathHolds e) _ (
      Grants-later (PathHolds e) _ (fallback_rule e) (
        Grants-later (PathHolds e) _ (memory_rule e) (
          Grants-later (PathHolds e) _ (keep_route_rule e d b t) (
            Grants-later (PathHolds e) _ (reroute_rule e d b t) (
              Grants-later (PathHolds e) _ (no_safe_route_rule d b) (
                Grants-here (PathHolds e) _ (path_rule e) (path_rule-Grants e) (
                  Refuses-and_then _ _ (breakdown_rule-Refuses e) (review_rule-Refuses e d c))))))))

  evaluate-replacement :
      (e : Entries) (d : Option String) (b : Bool) (t : Option String) (c : AuditChecks)
      → (evaluate decimal at_least e d b t c).1.status ≡ approved
      → ReplacementHolds e
  unfolding evaluate
  evaluate-replacement e d b t c = Grants-conclude (ReplacementHolds e) _ (
      Grants-later (ReplacementHolds e) _ (fallback_rule e) (
        Grants-later (ReplacementHolds e) _ (memory_rule e) (
          Grants-later (ReplacementHolds e) _ (keep_route_rule e d b t) (
            Grants-later (ReplacementHolds e) _ (reroute_rule e d b t) (
              Grants-later (ReplacementHolds e) _ (no_safe_route_rule d b) (
                Grants-later (ReplacementHolds e) _ (path_rule e) (
                  Grants-here (ReplacementHolds e) _ (breakdown_rule decimal at_least e)
                    (breakdown_rule-Grants e) (review_rule-Refuses e d c))))))))

  connectivity-Walks :
      (e : Entries)
      → connectivity_holds e ≡ true
      → Walks (get e "road_network_edges") (node_ids_of e) (edge_ids_of e)
  unfolding connectivity_holds
  connectivity-Walks e h =
      path_connects_lem (get e "road_network_edges") (node_ids_of e) (edge_ids_of e) h

  -- An approved dispatch for a blocked road, or with blocked edges named, recommends a path that is
  -- a walk in the road network, with no edge that is named as blocked and every edge open.
  pub approved_path :
      (e : Entries)
      → (audit_checks decimal at_least e).1.status ≡ approved
      → (issue_of e ≡ some "ROAD_BLOCKED") ⊎ (is_empty (blocked_of e) ≡ false)
      → Walks (get e "road_network_edges") (node_ids_of e) (edge_ids_of e)
        × (is_disjoint (edge_ids_of e) (blocked_of e) ≡ true)
        × (path_edges_are_open (edge_ids_of e) (get e "road_network_edges") ≡ true)
  unfolding audit_checks exclusion_holds
  approved_path e h q =
      let r = evaluate-path e _ _ _ _ h q in
      (connectivity-Walks e r.0, ground (arith, r.1), ground (arith, r.1))

  -- An approved dispatch for a vehicle that broke down names a replacement vehicle, and it is not the
  -- vehicle that broke down.
  pub approved_replacement :
      (e : Entries)
      → (audit_checks decimal at_least e).1.status ≡ approved
      → issue_of e ≡ some "VEHICLE_BREAKDOWN"
      → (is_some (target_vehicle e) ≡ true) × (target_vehicle e ≢ original_vehicle e)
  unfolding audit_checks assignment_holds
  approved_replacement e h q =
      let r = evaluate-replacement e _ _ _ _ h q in
      (ground (arith, r.0), ground (arith, r.0, ==_iff (target_vehicle e) (original_vehicle e)))
