-- ===== src/Iam/Authorize/Order.antt =====
-- The order in which an identity's policies are evaluated does not matter.
use ipa_rs_hetero_cloud.Prelude.{
  ◌==◌, ==_iff, Bool-cases, inl, inr, false, refl, ◌≡◌, List, Perm, any, any-perm, All-perm, IsOk,
  IsOk-prop,
}
use ipa_rs_hetero_cloud.Iam.Policy.{Chrono, PolicyEffect, PolicyDocument, validate}
use ipa_rs_hetero_cloud.Iam.Authorize.{AuthorizationRequest, authorize}
use ipa_rs_hetero_cloud.Iam.Authorize.Grants.{
  SameOrganization, AllValid, grants, takes, authorize_valid,
}

module _ (chrono : Chrono) (request : AuthorizationRequest) where
  grants-perm :
      (effect : PolicyEffect) {ps qs : List PolicyDocument}
      → Perm ps qs
      → grants chrono request effect ps ≡ grants chrono request effect qs
  grants-perm effect d = any-perm (λ policy. any (takes chrono request effect) policy.statements) d

  SameOrganization-perm :
      (ps qs : List PolicyDocument)
      → SameOrganization request
      → AllValid chrono ps
      → Perm ps qs
      → authorize chrono request ps ≡ authorize chrono request qs
  SameOrganization-perm ps qs same valid d =
      let valid' =
        All-perm (λ policy. IsOk (validate chrono policy))
          (λ policy. IsOk-prop (validate chrono policy)) d valid in
      cc (
        authorize_valid chrono request ps same valid,
        authorize_valid chrono request qs same valid',
        grants-perm PolicyEffect.allow d,
        grants-perm PolicyEffect.deny d,
      )

  other_organization :
      (ps qs : List PolicyDocument)
      → (request.principal_organization_id == request.resource_organization_id) ≡ false
      → authorize chrono request ps ≡ authorize chrono request qs
  unfolding authorize
  other_organization ps qs apart = rw apart refl

  -- Valid policies give the same evaluation, its reason included, in every order.
  pub authorize-perm :
      (ps qs : List PolicyDocument)
      → AllValid chrono ps
      → Perm ps qs
      → authorize chrono request ps ≡ authorize chrono request qs
  authorize-perm ps qs valid d =
      elim (Bool-cases (request.principal_organization_id == request.resource_organization_id)) [
        | inl e ↦
            SameOrganization-perm ps qs
              ((==_iff request.principal_organization_id request.resource_organization_id).0 e)
              valid d
        | inr e ↦ other_organization ps qs e
      ]
