-- ===== src/Iam/Authorize/Grants.antt =====
-- Which requests `authorize` allows, said without the loops.
use native.Mathlib.Decide.{ℕ_discrete}
use ipa_rs_hetero_cloud.Prelude.{
  ◌≡◌, ◌↔◌, Bool, true, false, ◌&&◌, ◌||◌, List, [], ◌∷◌, arith, if◌then◌else◌, any, All, Any,
  Result, ok, IsOk, IsOk-eq, IsOk-then, map_ok-IsOk, eq-IsOk, not_true, map_ok,
}
use ipa_rs_hetero_cloud.Iam.Policy.{
  Chrono, PolicyEffect, PolicyStatement, PolicyDocument, PolicyError, validate,
}
use ipa_rs_hetero_cloud.Iam.Authorize.{
  Decision, AuthorizationRequest, Evaluation, Flags, mark, applies, scan_statements, scan_policies,
  conclude, authorize,
}

-- The call returned an evaluation that allows the request.
abbrev pub Allows : Result PolicyError Evaluation → Type 0
Allows r = (e : Evaluation) × (r ≡ ok e) × (e.decision ≡ Decision.allow)

abbrev pub same_effect : PolicyEffect → PolicyEffect → Bool
same_effect PolicyEffect.allow PolicyEffect.allow = true
same_effect PolicyEffect.deny PolicyEffect.deny = true
same_effect _ _ = false

same_effect_iff : (a b : PolicyEffect) → (same_effect a b ≡ true) ↔ (a ≡ b)
same_effect_iff a b = ground arith

abbrev pub SameOrganization : AuthorizationRequest → Type 0
SameOrganization request = request.principal_organization_id ≡ request.resource_organization_id

module _ (chrono : Chrono) where
  abbrev pub AllValid : List PolicyDocument → Type 0
  AllValid policies = All (λ policy. IsOk (validate chrono policy)) policies

module _ (chrono : Chrono) (request : AuthorizationRequest) where
  -- Some statement of some policy has this effect and applies to the request.
  abbrev pub Grants : PolicyEffect → List PolicyDocument → Type 0
  Grants effect policies =
      Any
        (λ policy.
          Any (λ statement. (statement.effect ≡ effect) × (applies chrono request statement ≡ true))
            policy.statements)
        policies

  abbrev pub takes : PolicyEffect → PolicyStatement → Bool
  takes effect statement = same_effect statement.effect effect && applies chrono request statement

  abbrev pub grants : PolicyEffect → List PolicyDocument → Bool
  grants effect policies = any (λ policy. any (takes effect) policy.statements) policies

  statements_iff :
      (effect : PolicyEffect) (statements : List PolicyStatement)
      → (any (takes effect) statements ≡ true)
        ↔ Any (λ st. (st.effect ≡ effect) × (applies chrono request st ≡ true)) statements
  statements_iff effect [] = (λ h. cc, λ h. absurd h)
  statements_iff effect (st ∷ rest) =
      ground (arith, statements_iff effect rest, same_effect_iff st.effect effect)

  pub grants_iff :
      (effect : PolicyEffect) (policies : List PolicyDocument)
      → (grants effect policies ≡ true) ↔ Grants effect policies
  grants_iff effect [] = (λ h. cc, λ h. absurd h)
  grants_iff effect (policy ∷ rest) =
      ground (arith, grants_iff effect rest, statements_iff effect policy.statements)

  scan_statements_lem :
      (statements : List PolicyStatement) (flags : Flags)
      → scan_statements chrono request statements flags ≡ record {
        applicable_allow = flags.applicable_allow || any (takes PolicyEffect.allow) statements;
        applicable_deny = flags.applicable_deny || any (takes PolicyEffect.deny) statements;
      }
  unfolding scan_statements
  scan_statements_lem [] flags = ground arith
  scan_statements_lem (st ∷ rest) flags =
      rw
        (scan_statements_lem rest
          (if applies chrono request st then mark st.effect flags else flags))
        (ground arith)

  scan_policies_lem :
      (policies : List PolicyDocument) (flags : Flags)
      → AllValid chrono policies
      → scan_policies chrono request policies flags
        ≡ ok (record {
          applicable_allow = flags.applicable_allow || grants PolicyEffect.allow policies;
          applicable_deny = flags.applicable_deny || grants PolicyEffect.deny policies;
        })
  unfolding scan_policies
  scan_policies_lem [] flags valid = ground arith
  scan_policies_lem (policy ∷ rest) flags valid =
      rw
        (
          IsOk-eq (validate chrono policy) valid.0,
          scan_policies_lem rest (scan_statements chrono request policy.statements flags) valid.1,
          scan_statements_lem policy.statements flags,
        )
        (ground arith)

  scan_policies-AllValid :
      (policies : List PolicyDocument) (flags : Flags)
      → IsOk (scan_policies chrono request policies flags)
      → AllValid chrono policies
  unfolding scan_policies
  scan_policies-AllValid [] flags h = tt
  scan_policies-AllValid (policy ∷ rest) flags h =
      let (valid, onward) = (IsOk-then (validate chrono policy) _).0 h in
      (valid, scan_policies-AllValid rest _ onward)

  -- What the loops have found, in one pass over all the policies.
  abbrev pub found : List PolicyDocument → Flags
  found policies = record {
    applicable_allow = grants PolicyEffect.allow policies;
    applicable_deny = grants PolicyEffect.deny policies;
  }

  pub authorize_valid :
      (policies : List PolicyDocument)
      → SameOrganization request
      → AllValid chrono policies
      → authorize chrono request policies ≡ ok (conclude chrono request (found policies))
  unfolding authorize
  authorize_valid policies same valid = rw (scan_policies_lem policies _ valid) (ground arith)

  conclude-allow :
      (flags : Flags)
      → ((conclude chrono request flags).decision ≡ Decision.allow)
        ↔ ((flags.applicable_allow ≡ true) × (flags.applicable_deny ≡ false))
  unfolding conclude
  conclude-allow flags = ground arith

  abbrev unmarked : Flags
  unmarked = record { applicable_allow = false; applicable_deny = false }

  authorize-same :
      (policies : List PolicyDocument)
      → SameOrganization request
      → authorize chrono request policies
        ≡ map_ok (conclude chrono request) (scan_policies chrono request policies unmarked)
  unfolding authorize
  authorize-same policies same = ground arith

  pub authorize-AllValid :
      (policies : List PolicyDocument)
      → SameOrganization request
      → IsOk (authorize chrono request policies)
      → AllValid chrono policies
  authorize-AllValid policies same h =
      scan_policies-AllValid policies unmarked
        (map_ok-IsOk (conclude chrono request) _ (rw (authorize-same policies same) at h))

  pub authorize-other :
      (policies : List PolicyDocument)
      → ¬ SameOrganization request
      → ¬ Allows (authorize chrono request policies)
  unfolding authorize
  authorize-other policies other (e, returned, allowed) = ground arith

  -- An evaluation that allows has found no deny.
  pub authorize-consistent :
      (policies : List PolicyDocument) (e : Evaluation)
      → authorize chrono request policies ≡ ok e
      → e.decision ≡ Decision.allow
      → e.applicable_deny ≡ false
  unfolding authorize
  authorize-consistent policies e returned allowed = ground arith

  -- `authorize` allows a request exactly if it stays within one organization, every policy is
  -- valid, some allow statement applies to it and no deny statement does.
  pub authorize_iff :
      (policies : List PolicyDocument)
      → Allows (authorize chrono request policies) ↔ (
          SameOrganization request
          × AllValid chrono policies
          × Grants PolicyEffect.allow policies
          × ¬ Grants PolicyEffect.deny policies)
  authorize_iff policies = (forward, backward)
    where
      forward :
          Allows (authorize chrono request policies)
          → SameOrganization request
            × AllValid chrono policies
            × Grants PolicyEffect.allow policies
            × ¬ Grants PolicyEffect.deny policies
      forward (e, returned, allowed) =
          elim (ℕ_discrete request.principal_organization_id request.resource_organization_id) [
            | no other ↦ absurd (authorize-other policies other (e, returned, allowed))
            | yes same ↦
                let valid = authorize-AllValid policies same (eq-IsOk returned) in
                let (granted, denied) =
                  (conclude-allow (found policies)).0
                    (ground (arith, authorize_valid policies same valid)) in
                (
                  same,
                  valid,
                  (grants_iff PolicyEffect.allow policies).0 granted,
                  λ d. cc ((grants_iff PolicyEffect.deny policies).1 d),
                )
          ]

      backward :
          SameOrganization request
            × AllValid chrono policies
            × Grants PolicyEffect.allow policies
            × ¬ Grants PolicyEffect.deny policies
          → Allows (authorize chrono request policies)
      backward (same, valid, granted, undenied) = (
        conclude chrono request (found policies),
        authorize_valid policies same valid,
        (conclude-allow (found policies)).1 (
          (grants_iff PolicyEffect.allow policies).1 granted,
          not_true (λ h. undenied ((grants_iff PolicyEffect.deny policies).0 h)),
        ),
      )
