-- ===== src/Audit/Rules/Approval.antt =====
-- What the verdict says of the checks.
use model_lib.Base.{String, ◌≡◌, refl, Bool, true, false, ◌&&◌, Option, none, some, arith}
use model_lib.Base.Eq.{string_eq, option_eq}
use model_lib.Audit.Value.{Value, Entries}
use model_lib.Audit.Rules.{
  AuditChecks, AuditStatus, approved, rejected, review_required, Verdict, Rule, and_then,
  review_rule, path_rule, no_safe_route_rule, route_check, reroute_rule, keep_route_rule,
  memory_rule, fallback_rule, conclude, initial_checks, breakdown_rule, evaluate, audit_checks,
}

-- Every check but the one that only tells whether a dispatch was executed.
abbrev pub passes : AuditChecks → Bool
passes c =
    c.route_consistency
    && (c.memory_consistency
        && (c.fallback_consistency
            && (c.vehicle_assignment
                && (c.capacity_constraint && (c.route_connectivity && c.blocked_edge_exclusion)))))

-- The checks bear the verdict out.
abbrev pub Borne : AuditChecks → AuditStatus → Type 0
Borne c approved = passes c ≡ true
Borne c rejected = passes c ≡ false
Borne c review_required = passes c ≡ true

abbrev Sound : AuditChecks × Option Verdict → Type 0
Sound (c, none) = passes c ≡ true
Sound (c, some v) = Borne c v.status

abbrev Keeps : Rule → Type 0
Keeps rule = (c : AuditChecks) → passes c ≡ true → Sound (rule c)

Sound-and_then :
    (x : AuditChecks × Option Verdict) (rule : Rule)
    → Keeps rule
    → Sound x
    → Sound (and_then x rule)
Sound-and_then (c, some v) rule k h = h
Sound-and_then (c, none) rule k h = k c h

review_rule-Keeps : (e : Entries) (d : Option String) → Keeps (review_rule e d)
unfolding review_rule
review_rule-Keeps e d c h = ground arith

path_rule-Keeps : (e : Entries) → Keeps (path_rule e)
unfolding path_rule
path_rule-Keeps e c h = ground arith

no_safe_route_rule-Keeps : (d : Option String) (b : Bool) → Keeps (no_safe_route_rule d b)
unfolding no_safe_route_rule
no_safe_route_rule-Keeps d b c h = ground arith

reroute_rule-Keeps :
    (e : Entries) (d : Option String) (b : Bool) (t : Option String) → Keeps (reroute_rule e d b t)
unfolding reroute_rule route_check
reroute_rule-Keeps e d b t c h = ground arith

keep_route_rule-Keeps :
    (e : Entries) (d : Option String) (b : Bool) (t : Option String)
    → Keeps (keep_route_rule e d b t)
unfolding keep_route_rule route_check
keep_route_rule-Keeps e d b t c h = ground arith

memory_rule-Keeps : (e : Entries) → Keeps (memory_rule e)
unfolding memory_rule
memory_rule-Keeps e c h = ground arith

fallback_rule-Keeps : (e : Entries) → Keeps (fallback_rule e)
unfolding fallback_rule
fallback_rule-Keeps e c h = ground arith

conclude-Borne :
    (x : AuditChecks × Option Verdict) → Sound x → Borne (conclude x).0 (conclude x).1.status
unfolding conclude
conclude-Borne (c, some v) h = h
conclude-Borne (c, none) h = h

module _ {Decimal : Type 0} (decimal : Value → Option Decimal)
    (at_least : Decimal → Decimal → Bool) where
  breakdown_rule-Keeps : (e : Entries) → Keeps (breakdown_rule decimal at_least e)
  unfolding breakdown_rule
  breakdown_rule-Keeps e c h = ground arith

  evaluate-Borne :
      (e : Entries) (d : Option String) (b : Bool) (t : Option String) (c : AuditChecks)
      → passes c ≡ true
      → let r = evaluate decimal at_least e d b t c in Borne r.0 r.1.status
  unfolding evaluate
  evaluate-Borne e d b t c h = conclude-Borne _ (
      Sound-and_then _ _ (fallback_rule-Keeps e) (
        Sound-and_then _ _ (memory_rule-Keeps e) (
          Sound-and_then _ _ (keep_route_rule-Keeps e d b t) (
            Sound-and_then _ _ (reroute_rule-Keeps e d b t) (
              Sound-and_then _ _ (no_safe_route_rule-Keeps d b) (
                Sound-and_then _ _ (path_rule-Keeps e)
                  (Sound-and_then _ _ (breakdown_rule-Keeps e) (review_rule-Keeps e d c h))))))))

  -- An approved or a reviewed dispatch has no failed check, and a rejected one has at least one; the
  -- check that tells whether a dispatch was executed is left out.
  pub audit_checks-Borne :
      (e : Entries)
      → Borne (audit_checks decimal at_least e).0 (audit_checks decimal at_least e).1.status
  unfolding audit_checks initial_checks
  audit_checks-Borne e = evaluate-Borne e _ _ _ _ refl
