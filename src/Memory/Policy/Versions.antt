-- ===== src/Memory/Policy/Versions.antt =====
-- Versions of a shared fact: which decisions advance it, and that a stale writer is turned away.
use model_lib.Base.{ℕ, ◌+◌, ◌≡◌, ◌≢◌, refl, true, false, Option, none, some, arith}
use model_lib.Base.Eq.{==_iff, nat_eq, string_eq, option_eq}
use model_lib.Memory.Policy.{
  active, MutationDecision, create, merge, replace, reject, conflict_review, noop,
  MemoryPolicySettings, SharedMemoryFactSnapshot, SharedMemoryMutationCommand, MemoryDecision,
  decided, version_conflict, version_of, Digests, evaluate_live, evaluate_confident,
  evaluate_mutation, make_decision, conflict_key,
}

-- The version after a decision that advances it: 1 for a new fact.
pub next_version : Option ℕ → Option ℕ
next_version none = some 1
next_version (some n) = some (n + 1)

-- What the decision says about the fact's version and the projections.
abbrev pub Advances : MemoryDecision → Type 0
Advances d =
    (d.after_version ≡ next_version d.before_version)
    × (d.requires_projection ≡ true)
    × (d.proposed_status ≡ active)

abbrev pub Stays : MemoryDecision → Type 0
Stays d = (d.after_version ≡ d.before_version) × (d.requires_projection ≡ false)

abbrev pub Versioned : MutationDecision → MemoryDecision → Type 0
Versioned create d = Advances d
Versioned merge d = Advances d
Versioned replace d = Advances d
Versioned reject d = Stays d
Versioned conflict_review d = Stays d
Versioned noop d = Stays d

module _ (digests : Digests) (c : SharedMemoryMutationCommand) (settings : MemoryPolicySettings)
    (now : ℕ) where
  evaluate_live-Versioned :
      (f : SharedMemoryFactSnapshot)
      → let d = evaluate_live digests f c settings in
        Versioned d.decision d × (d.before_version ≡ some f.version)
  unfolding evaluate_live make_decision next_version
  evaluate_live-Versioned f = ground arith

  evaluate_confident-Versioned :
      (current : Option SharedMemoryFactSnapshot)
      → let d = evaluate_confident digests current c settings now in
        Versioned d.decision d × (d.before_version ≡ version_of current)
  unfolding evaluate_confident make_decision next_version
  evaluate_confident-Versioned none = ((refl, refl, refl), refl)
  evaluate_confident-Versioned (some f) = ground (arith, evaluate_live-Versioned f)

-- A decision is made only for the version that the command expects; it records that version, and
-- creating, merging and replacing advance it by one, make the fact active and ask for a projection,
-- while rejecting, reviewing and ignoring leave the version and ask for none.
pub evaluate_mutation-Versioned :
    (digests : Digests) (current : Option SharedMemoryFactSnapshot)
    (c : SharedMemoryMutationCommand) (settings : MemoryPolicySettings) (now : ℕ)
    (d : MemoryDecision)
    → evaluate_mutation digests current c settings now ≡ decided d
    → Versioned d.decision d
      × (d.before_version ≡ version_of current)
      × (c.expected_version ≡ version_of current)
unfolding evaluate_mutation make_decision
evaluate_mutation-Versioned digests current c settings now d h = ground (
  arith,
  ==_iff c.expected_version (version_of current),
  evaluate_confident-Versioned digests c settings now current,
)

next_version-ne : (v : Option ℕ) → next_version v ≢ v
unfolding next_version
next_version-ne none e = cc
next_version-ne (some n) e = ground arith

evaluate_mutation-unexpected :
    (digests : Digests) (f : SharedMemoryFactSnapshot) (c : SharedMemoryMutationCommand)
    (settings : MemoryPolicySettings) (now : ℕ)
    → c.expected_version ≢ some f.version
    → evaluate_mutation digests (some f) c settings now
      ≡ version_conflict f.fact_key c.expected_version (some f.version)
unfolding evaluate_mutation conflict_key
evaluate_mutation-unexpected digests f c settings now h =
    ground (arith, ==_iff c.expected_version (some f.version))

advanced_version :
    (d : MemoryDecision)
    → Versioned d.decision d
    → d.requires_projection ≡ true
    → d.after_version ≡ next_version d.before_version
advanced_version d v p = ground arith

-- Of two writers that expect the same version at most one changes the fact: once a decision that
-- asks for a projection has taken effect, a command with the same expected version raises the
-- conflict, with the key and both versions.
pub second_writer_conflicts :
    (digests : Digests) (current : Option SharedMemoryFactSnapshot)
    (c : SharedMemoryMutationCommand) (settings : MemoryPolicySettings) (now : ℕ)
    (d : MemoryDecision) (f : SharedMemoryFactSnapshot) (late : SharedMemoryMutationCommand)
    (settings' : MemoryPolicySettings) (later : ℕ)
    → evaluate_mutation digests current c settings now ≡ decided d
    → d.requires_projection ≡ true
    → d.after_version ≡ some f.version
    → late.expected_version ≡ c.expected_version
    → evaluate_mutation digests (some f) late settings' later
      ≡ version_conflict f.fact_key late.expected_version (some f.version)
second_writer_conflicts digests current c settings now d f late settings' later h p a e =
    let v = evaluate_mutation-Versioned digests current c settings now d h in
    evaluate_mutation-unexpected digests f late settings' later
      λ q. next_version-ne (version_of current) (cc (advanced_version d v.0 p, v.1, v.2, a, e, q))
