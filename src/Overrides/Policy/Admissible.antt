-- ===== src/Overrides/Policy/Admissible.antt =====
-- Exactly which overrides the policy allows.
use model_lib.Base.{
  String, ◌≡◌, refl, ap, sym, ◌∙◌, ◌⊎◌, inl, inr, ◌↔◌, true, false, Option, none, some, arith,
}
use model_lib.Base.Eq.{◌==◌, ==_iff, string_eq, option_eq}
use model_lib.Overrides.Policy.{
  RuntimeThreadStatus, stable, RuntimeThreadSnapshot, RuntimeOverrideCommand, GraphState, allowed,
  evaluate, evaluate_in, evaluate_stable, is_allowed_target, is_allowed_boundary,
  is_allowed_transition, next_node_conflicts,
}

-- A vehicle's status goes from normal to one of three faults, at the boundary between the
-- environment and capacity nodes of a stable thread whose state agrees with the command.
pub record IsAdmissible (c : RuntimeOverrideCommand) (t : RuntimeThreadSnapshot) (s : GraphState)
    : Type 0 where
  pub is_stable : t.status ≡ stable
  pub entity : c.entity_type ≡ "Vehicle"
  pub property : c.field ≡ "status"
  pub current : t.current_node ≡ some "environment"
  pub next : t.next_node ≡ some "capacity"
  pub expected : (c.expected_next_node ≡ none) ⊎ (c.expected_next_node ≡ some "capacity")
  pub old : c.old_value ≡ "NORMAL"
  pub new : (c.new_value ≡ "BROKEN") ⊎ (c.new_value ≡ "UNAVAILABLE") ⊎ (c.new_value ≡ "MAINTENANCE")
  pub vehicle : s.vehicle_id ≡ some c.entity_id
  pub vehicle_normal : s.vehicle_status ≡ some c.old_value

is_allowed_transition-eq :
    (old new : String)
    → is_allowed_transition old new ≡ true
    → (old ≡ "NORMAL") × ((new ≡ "BROKEN") ⊎ (new ≡ "UNAVAILABLE") ⊎ (new ≡ "MAINTENANCE"))
unfolding is_allowed_transition
is_allowed_transition-eq old new h = ground (
  arith,
  ==_iff old "NORMAL",
  ==_iff new "BROKEN",
  ==_iff new "UNAVAILABLE",
  ==_iff new "MAINTENANCE",
)

is_allowed_transition_complete :
    (old new : String)
    → old ≡ "NORMAL"
    → (new ≡ "BROKEN") ⊎ (new ≡ "UNAVAILABLE") ⊎ (new ≡ "MAINTENANCE")
    → is_allowed_transition old new ≡ true
unfolding is_allowed_transition
is_allowed_transition_complete old new o (inl e) = rw (o, e)
is_allowed_transition_complete old new o (inr (inl e)) = rw (o, e)
is_allowed_transition_complete old new o (inr (inr e)) = rw (o, e)

next_node_conflicts-eq :
    (expected : Option String)
    → next_node_conflicts expected (some "capacity") ≡ false
    → (expected ≡ none) ⊎ (expected ≡ some "capacity")
unfolding next_node_conflicts
next_node_conflicts-eq none h = inl refl
next_node_conflicts-eq (some e) h = ground (arith, ==_iff e "capacity")

next_node_conflicts-admissible :
    (expected : Option String)
    → (expected ≡ none) ⊎ (expected ≡ some "capacity")
    → next_node_conflicts expected (some "capacity") ≡ false
unfolding next_node_conflicts
next_node_conflicts-admissible none h = refl
next_node_conflicts-admissible (some e) h = ground (arith, ==_iff e "capacity")

-- The tests that all have to pass.
record Passes (c : RuntimeOverrideCommand) (t : RuntimeThreadSnapshot) (s : GraphState)
    : Type 0 where
  target : is_allowed_target c ≡ true
  boundary : is_allowed_boundary t ≡ true
  next_node : next_node_conflicts c.expected_next_node t.next_node ≡ false
  transition : is_allowed_transition c.old_value c.new_value ≡ true
  vehicle : (s.vehicle_id == some c.entity_id) ≡ true
  status : (s.vehicle_status == some c.old_value) ≡ true

module _ (c : RuntimeOverrideCommand) (t : RuntimeThreadSnapshot) (s : GraphState) where
  evaluate_stable-Passes : (evaluate_stable c t s).decision ≡ allowed → Passes c t s
  unfolding evaluate_stable
  evaluate_stable-Passes h = ground arith

  Passes-evaluate_stable : Passes c t s → (evaluate_stable c t s).decision ≡ allowed
  unfolding evaluate_stable
  Passes-evaluate_stable p = ground arith

  evaluate_in-stable :
      (st : RuntimeThreadStatus)
      → (evaluate_in st c t s).decision ≡ allowed
      → (st ≡ stable) × ((evaluate_stable c t s).decision ≡ allowed)
  unfolding evaluate_in
  evaluate_in-stable st h = ground arith

  boundary-eq :
      is_allowed_boundary t ≡ true
      → (t.current_node ≡ some "environment") × (t.next_node ≡ some "capacity")
  unfolding is_allowed_boundary
  boundary-eq h =
      ground
        (arith, ==_iff t.current_node (some "environment"), ==_iff t.next_node (some "capacity"))

  target-eq : is_allowed_target c ≡ true → (c.entity_type ≡ "Vehicle") × (c.field ≡ "status")
  unfolding is_allowed_target
  target-eq h = ground (arith, ==_iff c.entity_type "Vehicle", ==_iff c.field "status")

  Passes-IsAdmissible : t.status ≡ stable → Passes c t s → IsAdmissible c t s
  Passes-IsAdmissible st p = record {
    is_stable = st;
    entity = (target-eq p.target).0;
    property = (target-eq p.target).1;
    current = (boundary-eq p.boundary).0;
    next = next;
    expected =
        next_node_conflicts-eq c.expected_next_node
          (ap (next_node_conflicts c.expected_next_node) (sym next) ∙ p.next_node);
    old = (is_allowed_transition-eq c.old_value c.new_value p.transition).0;
    new = (is_allowed_transition-eq c.old_value c.new_value p.transition).1;
    vehicle = (==_iff s.vehicle_id (some c.entity_id)).0 p.vehicle;
    vehicle_normal = (==_iff s.vehicle_status (some c.old_value)).0 p.status;
  }
    where
      next : t.next_node ≡ some "capacity"
      next = (boundary-eq p.boundary).1

  IsAdmissible-Passes : IsAdmissible c t s → Passes c t s
  unfolding is_allowed_target is_allowed_boundary
  IsAdmissible-Passes a = record {
    target = rw (a.entity, a.property);
    boundary = rw (a.current, a.next);
    next_node =
        ap (next_node_conflicts c.expected_next_node) a.next
        ∙ next_node_conflicts-admissible c.expected_next_node a.expected;
    transition = is_allowed_transition_complete c.old_value c.new_value a.old a.new;
    vehicle = (==_iff s.vehicle_id (some c.entity_id)).1 a.vehicle;
    status = (==_iff s.vehicle_status (some c.old_value)).1 a.vehicle_normal;
  }

  -- The policy allows an override exactly when it is admissible.
  pub evaluate-allowed_iff : ((evaluate c t s).decision ≡ allowed) ↔ IsAdmissible c t s
  unfolding evaluate
  evaluate-allowed_iff = (
    (λ h.
        let q = evaluate_in-stable t.status h in
        Passes-IsAdmissible q.0 (evaluate_stable-Passes q.1)),
    (λ a. rw (a.is_stable, evaluate_in) (Passes-evaluate_stable (IsAdmissible-Passes a))),
  )
