-- ===== src/Memory/Policy/Outcomes.antt =====
-- Which decisions change a shared fact.
use model_lib.Base.{
  ℕ, ◌≤◌, ◌≡◌, ◌≢◌, ◌↔◌, ◌⊎◌, inl, inr, true, false, Option, none, some, Bool-cases, arith,
}
use model_lib.Base.Eq.{==_iff, nat_eq, string_eq, option_eq}
use model_lib.Memory.Policy.{
  replace, contains, MemoryPolicySettings, SharedMemoryFactSnapshot, SharedMemoryMutationCommand,
  MemoryDecision, decided, Digests, evaluate_live, evaluate_confident, is_expired,
  evaluate_mutation, make_decision,
}

module _ (digests : Digests) (c : SharedMemoryMutationCommand) (settings : MemoryPolicySettings)
    (now : ℕ) where
  -- A human has confirmed the command, or its confidence suffices.
  abbrev pub Trusted : Type 0
  Trusted = (settings.auto_apply_min_confidence ≤ c.confidence) ⊎ (c.human_confirmed ≡ true)

  -- The fact has the command's evidence, confidence and end already.
  abbrev pub Repeated : SharedMemoryFactSnapshot → Type 0
  Repeated f =
      (contains f.evidence_fingerprints (digests.evidence_fingerprint c) ≡ true)
      × (c.confidence ≡ f.confidence)
      × (c.expires_at ≡ f.expires_at)

  -- The command may change what is known: there is no such fact, or it has expired, or it says the
  -- same with something new about it, or it says something else and a human has confirmed that.
  abbrev pub Changing : Option SharedMemoryFactSnapshot → Type 0
  Changing none = Unit
  Changing (some f) =
      (is_expired f now ≡ true)
      ⊎ (((digests.content_fingerprint c ≡ f.content_fingerprint) × (Repeated f → ⊥))
          ⊎ ((digests.content_fingerprint c ≢ f.content_fingerprint) × (c.human_confirmed ≡ true)))

  live_projects :
      (f : SharedMemoryFactSnapshot)
      → is_expired f now ≡ false
      → ((evaluate_live digests f c settings).requires_projection ≡ true) ↔ Changing (some f)
  unfolding evaluate_live make_decision
  live_projects f live =
      let content = ==_iff (digests.content_fingerprint c) f.content_fingerprint in
      let confidence = ==_iff c.confidence f.confidence in
      let expires = ==_iff c.expires_at f.expires_at in
      (
        (λ h. ground (arith, live, content, confidence, expires)),
        (λ h. ground (arith, live, content, confidence, expires)),
      )

  confident_projects :
      (current : Option SharedMemoryFactSnapshot)
      → ((evaluate_confident digests current c settings now).requires_projection ≡ true)
        ↔ Changing current
  unfolding evaluate_confident make_decision
  confident_projects none = ground arith
  confident_projects (some f) = elim (Bool-cases (is_expired f now)) [
    | inl e ↦ ground (arith, e)
    | inr e ↦ ground (arith, e, live_projects f e)
  ]

  -- A command that is decided is projected exactly when it is trusted, by its confidence or by a
  -- human, and may change what is known: there is no such fact, or it has expired, or the command says
  -- the same with something new about it, or it says something else and a human has confirmed it.
  pub evaluate_mutation-projects_iff :
      (current : Option SharedMemoryFactSnapshot) (d : MemoryDecision)
      → evaluate_mutation digests current c settings now ≡ decided d
      → (d.requires_projection ≡ true) ↔ (Trusted × Changing current)
  unfolding evaluate_mutation make_decision
  evaluate_mutation-projects_iff current d h = ground (arith, h, confident_projects current)

  live_replace :
      (f : SharedMemoryFactSnapshot)
      → ((evaluate_live digests f c settings).decision ≡ replace)
        ↔ ((c.human_confirmed ≡ true) × (digests.content_fingerprint c ≢ f.content_fingerprint))
  unfolding evaluate_live make_decision
  live_replace f =
      let e = ==_iff (digests.content_fingerprint c) f.content_fingerprint in
      ((λ h. (ground arith, ground (arith, e))), (λ h. ground (arith, e)))

  -- A decided command replaces a fact that has not expired exactly when a human has confirmed it
  -- and its content is another.
  pub replace-live_iff :
      (f : SharedMemoryFactSnapshot) (d : MemoryDecision)
      → evaluate_mutation digests (some f) c settings now ≡ decided d
      → is_expired f now ≡ false
      → (d.decision ≡ replace)
        ↔ ((c.human_confirmed ≡ true) × (digests.content_fingerprint c ≢ f.content_fingerprint))
  unfolding evaluate_mutation evaluate_confident make_decision
  replace-live_iff f d h live =
      ((λ r. (live_replace f).0 (ground arith)), (λ q. ground (arith, (live_replace f).1 q)))
