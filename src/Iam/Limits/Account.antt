-- ===== src/Iam/Limits/Account.antt =====
-- The evaluation of an account's permissions from end to end.
use native.Mathlib.Decide.{ℕ_discrete}
use ipa_rs_hetero_cloud.Prelude.{
  ◌≡◌, refl, sym, ◌∙◌, ◌↔◌, ◌⊎◌, Bool, true, false, ◌||◌, List, arith, ok, eq-IsOk, not_true,
}
use ipa_rs_hetero_cloud.Iam.Policy.{Chrono, PolicyEffect, PolicyDocument}
use ipa_rs_hetero_cloud.Iam.Authorize.{
  Decision, AuthorizationRequest, Evaluation, Flags, authorize, conclude,
}
use ipa_rs_hetero_cloud.Iam.Authorize.Grants.{
  Allows, SameOrganization, AllValid, Grants, grants_iff, found, authorize_valid,
  authorize-AllValid,
}
use ipa_rs_hetero_cloud.Iam.Limits.{
  AuthorizationContext, is_account_administrator, grant_administrator, authorize_with_administrator,
  name_self_service, evaluate_account_permissions,
}
use ipa_rs_hetero_cloud.Iam.Limits.Pipeline.{
  LevelsAllow, BoundaryAllows, map_ok-Allows, >>=-Allows, enforce_permissions_boundary_iff,
  enforce_service_control_policies_iff,
}

module _ (chrono : Chrono) (request : AuthorizationRequest) where
  -- The identity's own valid policies allow, or what is granted besides, and nothing denies.
  abbrev pub IdentityAllows : List PolicyDocument → Bool → Type 0
  IdentityAllows policies administrator =
      SameOrganization request
      × AllValid chrono policies
      × (Grants chrono request PolicyEffect.allow policies ⊎ (administrator ≡ true))
      × ¬ Grants chrono request PolicyEffect.deny policies

  grant-conclude :
      (administrator : Bool) (flags : Flags)
      → ((grant_administrator administrator (conclude chrono request flags)).decision
          ≡ Decision.allow)
        ↔ (((flags.applicable_allow ≡ true) ⊎ (administrator ≡ true))
            × (flags.applicable_deny ≡ false))
  unfolding grant_administrator conclude
  grant-conclude administrator flags = ground arith

  grant-other :
      (administrator : Bool) (policies : List PolicyDocument) (e : Evaluation)
      → ¬ SameOrganization request
      → authorize chrono request policies ≡ ok e
      → (grant_administrator administrator e).decision ≡ Decision.allow
      → ⊥
  unfolding grant_administrator authorize
  grant-other administrator policies e other at h = ground arith

  module _ (policies : List PolicyDocument) (administrator : Bool) where
    administrator→ :
        Allows (authorize_with_administrator chrono request policies administrator)
        → IdentityAllows policies administrator
    unfolding authorize_with_administrator
    administrator→ h =
        let (e, at, grant) = map_ok-Allows (grant_administrator administrator) _ h in
        elim (ℕ_discrete request.principal_organization_id request.resource_organization_id) [
          | no other ↦ absurd (grant-other administrator policies e other at grant)
          | yes same ↦
              let valid = authorize-AllValid chrono request policies same (eq-IsOk at) in
              let flags = found chrono request policies in
              let (granted, denied) =
                (grant-conclude administrator flags).0
                  (cc (authorize_valid chrono request policies same valid, at)) in
              (
                same,
                valid,
                ground (arith, grants_iff chrono request PolicyEffect.allow policies),
                λ d. cc ((grants_iff chrono request PolicyEffect.deny policies).1 d),
              )
        ]

    administrator← :
        IdentityAllows policies administrator
        → Allows (authorize_with_administrator chrono request policies administrator)
    unfolding authorize_with_administrator
    administrator← (same, valid, granted, undenied) =
        rw (authorize_valid chrono request policies same valid) (
          grant_administrator administrator
              (conclude chrono request (found chrono request policies)),
          refl,
          (grant-conclude administrator (found chrono request policies)).1 (
            ground (arith, grants_iff chrono request PolicyEffect.allow policies),
            not_true (λ h. undenied ((grants_iff chrono request PolicyEffect.deny policies).0 h)),
          ),
        )

  name_self_service-decision :
      (implicit_allow : Bool) (context : AuthorizationContext) (e : Evaluation)
      → (name_self_service implicit_allow context.role e).decision ≡ e.decision
  unfolding name_self_service
  name_self_service-decision implicit_allow context e = ground arith

  -- An account's request is allowed exactly if it stays within one organization, all policies of
  -- the identity are valid, one of them allows it or the identity is an administrator or the API
  -- allows the request implicitly, none of them denies it, and the permissions boundary and every
  -- level of service control policies each allow it by themselves.
  pub evaluate_account_permissions_iff :
      (context : AuthorizationContext) (levels : List (List PolicyDocument)) (implicit_allow : Bool)
      → Allows (evaluate_account_permissions chrono request context levels implicit_allow) ↔ (
          IdentityAllows context.policies (implicit_allow || is_account_administrator context.role)
          × BoundaryAllows chrono request context.permissions_boundary
          × LevelsAllow chrono request levels)
  unfolding evaluate_account_permissions
  evaluate_account_permissions_iff context levels implicit_allow = (forward, backward)
    where
      admin : Bool
      admin = implicit_allow || is_account_administrator context.role

      forward :
          Allows (evaluate_account_permissions chrono request context levels implicit_allow)
          → IdentityAllows context.policies admin
            × BoundaryAllows chrono request context.permissions_boundary
            × LevelsAllow chrono request levels
      forward h =
          let (identity, at, rest) = >>=-Allows _ _ h in
          let named = name_self_service implicit_allow context.role identity in
          let (bounded, at', rest') = >>=-Allows _ _ rest in
          let (b, levels_allow) =
            (enforce_service_control_policies_iff chrono request bounded levels).0 rest' in
          let (n, boundary_allows) =
            (enforce_permissions_boundary_iff chrono request named context.permissions_boundary).0
              (bounded, at', b) in
          (
            administrator→ context.policies admin (
              identity,
              at,
              sym (name_self_service-decision implicit_allow context identity) ∙ n,
            ),
            boundary_allows,
            levels_allow,
          )

      backward :
          IdentityAllows context.policies admin
            × BoundaryAllows chrono request context.permissions_boundary
            × LevelsAllow chrono request levels
          → Allows (evaluate_account_permissions chrono request context levels implicit_allow)
      backward (i, b, l) =
          let (identity, at, allowed) = administrator← context.policies admin i in
          let named = name_self_service implicit_allow context.role identity in
          let (bounded, at', allowed') =
            (enforce_permissions_boundary_iff chrono request named context.permissions_boundary).1
              (name_self_service-decision implicit_allow context identity ∙ allowed, b) in
          rw (at, at')
            ((enforce_service_control_policies_iff chrono request bounded levels).1 (allowed', l))
