-- ===== src/Memory/Policy.antt =====
-- backend/app/shared_memory/policy.py: what a mutation does to a shared fact. Confidences are
-- decimals of one scale and instants are numbers. The three digests of shared_memory/identity.py
-- (SHA-256 of a canonical JSON text) are parameters, and nothing is assumed of them.
pub mod Versions
pub mod Outcomes
mod Tests
use model_lib.Base.{
  ℕ, ◌+◌, String, Bool, true, false, not, ◌&&◌, ◌||◌, Option, none, some, List, [], ◌∷◌, ltb, leb,
  if◌then◌else◌,
}
use model_lib.Base.Eq.{◌==◌, nat_eq, string_eq, option_eq}

pub data MemoryFactStatus : Type 0 where
  active expired pending_review conflict : MemoryFactStatus

pub data MutationDecision : Type 0 where
  create merge replace reject conflict_review noop : MutationDecision

pub data ReasonCode : Type 0 where
  low_confidence_review new_fact expired_fact duplicate_fact_and_evidence : ReasonCode
  new_evidence_or_metadata human_confirmed_value stale_evidence lower_confidence : ReasonCode
  content_conflict_review : ReasonCode

pub record MemoryPolicySettings : Type 0 where
  pub auto_apply_min_confidence : ℕ
  pub lower_confidence_reject_delta : ℕ

pub record SharedMemoryFactSnapshot : Type 0 where
  pub fact_key : String
  pub version : ℕ
  pub content_fingerprint : String
  pub confidence : ℕ
  pub status : MemoryFactStatus
  pub updated_at : ℕ
  pub expires_at : Option ℕ
  pub evidence_fingerprints : List String

-- The fields of `SharedMemoryMutationCommand` that the policy and the digests read; `value_json`
-- is the canonical text of the value.
pub record SharedMemoryMutationCommand : Type 0 where
  pub category : String
  pub subject_type : String
  pub subject_id : String
  pub predicate : String
  pub value_json : String
  pub confidence : ℕ
  pub incoming_at : ℕ
  pub source_type : String
  pub source_id : String
  pub human_confirmed : Bool
  pub object_type : Option String
  pub object_id : Option String
  pub expected_version : Option ℕ
  pub expires_at : Option ℕ
  pub evidence_text : Option String
  pub evidence_ref : Option String
  pub evidence_observed_at : Option ℕ

pub record MemoryDecision : Type 0 where
  pub decision : MutationDecision
  pub reason_code : ReasonCode
  pub before_version : Option ℕ
  pub after_version : Option ℕ
  pub proposed_status : MemoryFactStatus
  pub requires_projection : Bool

-- `MemoryVersionConflict` is raised with the fact's key and both versions.
pub data Evaluation : Type 0 where
  decided : MemoryDecision → Evaluation
  version_conflict : String → Option ℕ → Option ℕ → Evaluation

is_expired_status : MemoryFactStatus → Bool
is_expired_status expired = true
is_expired_status _ = false

is_past : Option ℕ → ℕ → Bool
is_past none now = false
is_past (some t) now = leb t now

pub is_expired : SharedMemoryFactSnapshot → ℕ → Bool
unfolding is_expired_status is_past
is_expired f now = is_expired_status f.status || is_past f.expires_at now

abbrev pub version_of : Option SharedMemoryFactSnapshot → Option ℕ
version_of none = none
version_of (some f) = some f.version

after : Option SharedMemoryFactSnapshot → Bool → Option ℕ
after none increments = if increments then some 1 else none
after (some f) increments = if increments then some (f.version + 1) else some f.version

-- `_decision`
make_decision :
    MutationDecision
    → ReasonCode
    → Option SharedMemoryFactSnapshot
    → MemoryFactStatus
    → Bool
    → Bool
    → MemoryDecision
unfolding after
make_decision d reason current status increments requires_projection = record {
  decision = d;
  reason_code = reason;
  before_version = version_of current;
  after_version = after current increments;
  proposed_status = status;
  requires_projection = requires_projection;
}

pub contains : List String → String → Bool
contains [] s = false
contains (t ∷ ts) s = t == s || contains ts s

-- The three digests of shared_memory/identity.py.
pub record Digests : Type 0 where
  pub build_fact_key : SharedMemoryMutationCommand → String
  pub content_fingerprint : SharedMemoryMutationCommand → String
  pub evidence_fingerprint : SharedMemoryMutationCommand → String

module _ (digests : Digests) where
  open digests use {build_fact_key, content_fingerprint, evidence_fingerprint}

  -- A known fact that has not expired.
  evaluate_live :
      SharedMemoryFactSnapshot → SharedMemoryMutationCommand → MemoryPolicySettings → MemoryDecision
  evaluate_live f c settings =
      if content_fingerprint c == f.content_fingerprint
      then (if contains f.evidence_fingerprints (evidence_fingerprint c)
            && (c.confidence == f.confidence && c.expires_at == f.expires_at)
          then make_decision noop duplicate_fact_and_evidence (some f) f.status false false
          else make_decision merge new_evidence_or_metadata (some f) active true true)
      else if c.human_confirmed
      then make_decision replace human_confirmed_value (some f) active true true
      else if ltb c.incoming_at f.updated_at
      then make_decision reject stale_evidence (some f) f.status false false
      else if leb (c.confidence + settings.lower_confidence_reject_delta) f.confidence
      then make_decision reject lower_confidence (some f) f.status false false
      else make_decision conflict_review content_conflict_review (some f) conflict false false

  -- A command whose expected version is right and whose confidence suffices.
  evaluate_confident :
      Option SharedMemoryFactSnapshot
      → SharedMemoryMutationCommand
      → MemoryPolicySettings
      → ℕ
      → MemoryDecision
  evaluate_confident none c settings now = make_decision create new_fact none active true true
  evaluate_confident (some f) c settings now =
      if is_expired f now
      then make_decision replace expired_fact (some f) active true true
      else evaluate_live f c settings

  review_status : Option SharedMemoryFactSnapshot → MemoryFactStatus
  review_status none = pending_review
  review_status (some f) = conflict

  conflict_key : Option SharedMemoryFactSnapshot → SharedMemoryMutationCommand → String
  conflict_key none c = build_fact_key c
  conflict_key (some f) c = f.fact_key

  pub evaluate_mutation :
      Option SharedMemoryFactSnapshot
      → SharedMemoryMutationCommand
      → MemoryPolicySettings
      → ℕ
      → Evaluation
  evaluate_mutation current c settings now =
      if not (c.expected_version == version_of current)
      then version_conflict (conflict_key current c) c.expected_version (version_of current)
      else if ltb c.confidence settings.auto_apply_min_confidence && not c.human_confirmed
      then decided (
          make_decision conflict_review low_confidence_review current (review_status current) false
            false)
      else decided (evaluate_confident current c settings now)
