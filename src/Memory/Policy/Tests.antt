-- ===== src/Memory/Policy/Tests.antt =====
-- One fact and commands against it.
use model_lib.Base.{◌≡◌, ◌≢◌, refl, ◌↔◌, true, false, some, none, [], ◌∷◌}
use model_lib.Memory.Policy.{
  active, replace, conflict_review, human_confirmed_value, low_confidence_review,
  MemoryPolicySettings, SharedMemoryFactSnapshot, SharedMemoryMutationCommand, MemoryDecision,
  decided, version_conflict, Digests, evaluate_live, evaluate_confident, is_expired,
  evaluate_mutation, make_decision, after, review_status,
}
use model_lib.Memory.Policy.Versions.{
  Versioned, evaluate_mutation-Versioned, second_writer_conflicts,
}
use model_lib.Memory.Policy.Outcomes.{
  Trusted, Changing, evaluate_mutation-projects_iff, replace-live_iff,
}

-- Digests that read one field each.
abbrev digests : Digests
digests = record {
  build_fact_key = λ c. c.subject_id;
  content_fingerprint = λ c. c.value_json;
  evidence_fingerprint = λ c. c.source_id;
}

abbrev settings : MemoryPolicySettings
settings = record { auto_apply_min_confidence = 80; lower_confidence_reject_delta = 10 }

abbrev fact : SharedMemoryFactSnapshot
fact = record {
  fact_key = "S-1";
  version = 3;
  content_fingerprint = "open";
  confidence = 90;
  status = active;
  updated_at = 100;
  expires_at = none;
  evidence_fingerprints = "report-1" ∷ [];
}

abbrev confirmed : SharedMemoryMutationCommand
confirmed = record {
  category = "DispatchMemory";
  subject_type = "Road";
  subject_id = "S-1";
  predicate = "status";
  value_json = "closed";
  confidence = 85;
  incoming_at = 120;
  source_type = "report";
  source_id = "report-2";
  human_confirmed = true;
  object_type = none;
  object_id = none;
  expected_version = some 3;
  expires_at = none;
  evidence_text = none;
  evidence_ref = none;
  evidence_observed_at = none;
}

abbrev unsure : SharedMemoryMutationCommand
unsure = record confirmed { confidence = 40; human_confirmed = false }

abbrev replaced : MemoryDecision
replaced = record {
  decision = replace;
  reason_code = human_confirmed_value;
  before_version = some 3;
  after_version = some 4;
  proposed_status = active;
  requires_projection = true;
}

confirmed_replaces : evaluate_mutation digests (some fact) confirmed settings 130 ≡ decided replaced
unfolding evaluate_mutation evaluate_confident evaluate_live is_expired make_decision after
confirmed_replaces = refl

evaluate_mutation-Versioned_example :
    Versioned replace replaced
    × (replaced.before_version ≡ some 3)
    × (confirmed.expected_version ≡ some 3)
evaluate_mutation-Versioned_example =
    evaluate_mutation-Versioned digests (some fact) confirmed settings 130 replaced
      confirmed_replaces

second_writer_conflicts_example :
    evaluate_mutation digests (some (record fact { version = 4 })) unsure settings 140
    ≡ version_conflict "S-1" (some 3) (some 4)
second_writer_conflicts_example =
    second_writer_conflicts digests (some fact) confirmed settings 130 replaced
      (record fact { version = 4 }) unsure settings 140 confirmed_replaces refl refl refl

reviewed : MemoryDecision
unfolding make_decision
reviewed =
    make_decision conflict_review low_confidence_review (some fact)
      (review_status digests (some fact)) false false

evaluate_mutation-projects_iff_example :
    (reviewed.requires_projection ≡ true)
    ↔ (Trusted digests unsure settings 130 × Changing digests unsure settings 130 (some fact))
unfolding reviewed evaluate_mutation
evaluate_mutation-projects_iff_example =
    evaluate_mutation-projects_iff digests unsure settings 130 (some fact) reviewed refl

replace-live_iff_example : (replaced.decision ≡ replace) ↔ (
    (confirmed.human_confirmed ≡ true)
    × (digests.content_fingerprint confirmed ≢ fact.content_fingerprint))
unfolding is_expired
replace-live_iff_example =
    replace-live_iff digests confirmed settings 130 fact replaced confirmed_replaces refl
