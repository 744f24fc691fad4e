-- ===== src/Iam/Limits/Pipeline.antt =====
-- Which requests pass every limit.
use ipa_rs_hetero_cloud.Prelude.{
  ◌≡◌, refl, ◌↔◌, inl, inr, Bool, false, ◌||◌, Option, none, some, List, [], ◌∷◌, arith, All,
  Result, ok, err, ◌>>=◌, map_ok, Bool-cases,
}
use ipa_rs_hetero_cloud.Iam.Policy.{Chrono, PolicyDocument, PolicyError}
use ipa_rs_hetero_cloud.Iam.Authorize.{Decision, AuthorizationRequest, Evaluation, authorize}
use ipa_rs_hetero_cloud.Iam.Authorize.Grants.{Allows, authorize-consistent}
use ipa_rs_hetero_cloud.Iam.Limits.{
  is_deny, after_level, after_levels, scan_levels, enforce_service_control_policies, bounded_by,
  enforce_permissions_boundary, enforce_session_policy, name_session_policy,
}

pub >>=-Allows :
    (m : Result PolicyError Evaluation) (f : Evaluation → Result PolicyError Evaluation)
    → Allows (m >>= f)
    → (e : Evaluation) × (m ≡ ok e) × Allows (f e)
>>=-Allows (ok e) f h = (e, refl, h)
>>=-Allows (err x) f (e, r, h) = cc

pub map_ok-Allows :
    (f : Evaluation → Evaluation) (m : Result PolicyError Evaluation)
    → Allows (map_ok f m)
    → (e : Evaluation) × (m ≡ ok e) × ((f e).decision ≡ Decision.allow)
map_ok-Allows f (ok e) (e', r, h) = (e, refl, cc)
map_ok-Allows f (err x) (e', r, h) = cc

module _ (chrono : Chrono) (request : AuthorizationRequest) where
  -- Every level of service control policies allows the request by itself.
  abbrev pub LevelsAllow : List (List PolicyDocument) → Type 0
  LevelsAllow levels = All (λ policies. Allows (authorize chrono request policies)) levels

  -- A boundary, or a session policy, that is present allows the request by itself.
  abbrev pub BoundaryAllows : Option PolicyDocument → Type 0
  BoundaryAllows none = Unit
  BoundaryAllows (some boundary) = Allows (authorize chrono request (boundary ∷ []))

  module _ (identity : Evaluation) where
    after_level_iff :
        (evaluation : Evaluation) (onward : Result PolicyError Evaluation)
        → Allows (after_level identity evaluation onward)
          ↔ ((evaluation.applicable_deny ≡ false) × Allows onward)
    unfolding after_level
    after_level_iff evaluation onward = elim (Bool-cases evaluation.applicable_deny) [
      | inl denied ↦ (λ (e, r, h). cc, λ (undenied, _). cc)
      | inr undenied ↦ rw undenied (λ h. (refl, h), λ h. h.1)
    ]

    after_levels_iff :
        (no_allow : Bool)
        → identity.decision ≡ Decision.allow
        → ((after_levels identity no_allow).decision ≡ Decision.allow) ↔ (no_allow ≡ false)
    unfolding after_levels
    after_levels_iff no_allow allowed = ground arith

    -- Once a level has refused, the loop cannot allow.
    scan_levels→ :
        (levels : List (List PolicyDocument)) (no_allow : Bool)
        → identity.decision ≡ Decision.allow
        → Allows (scan_levels chrono request identity levels no_allow)
        → (no_allow ≡ false) × LevelsAllow levels
    unfolding scan_levels
    scan_levels→ [] no_allow allowed (e, returned, h) =
        ((after_levels_iff no_allow allowed).0 (cc), tt)
    scan_levels→ (policies ∷ rest) no_allow allowed h =
        let (evaluation, at, back) = >>=-Allows (authorize chrono request policies) _ h in
        let (_, onward) = (after_level_iff evaluation _).0 back in
        let (none_so_far, later) =
          scan_levels→ rest (no_allow || is_deny evaluation.decision) allowed onward in
        (ground arith, ((evaluation, at, ground arith), later))

    scan_levels← :
        (levels : List (List PolicyDocument))
        → identity.decision ≡ Decision.allow
        → LevelsAllow levels
        → Allows (scan_levels chrono request identity levels false)
    unfolding scan_levels
    scan_levels← [] allowed h = (identity, refl, allowed)
    scan_levels← (policies ∷ rest) allowed ((evaluation, at, grant), later) =
        rw (at, grant)
          ((after_level_iff evaluation _).1 (
            authorize-consistent chrono request policies evaluation at grant,
            scan_levels← rest allowed later,
          ))

    bounded_by_iff :
        (evaluation : Evaluation)
        → identity.decision ≡ Decision.allow
        → ((bounded_by identity evaluation).decision ≡ Decision.allow)
          ↔ (evaluation.decision ≡ Decision.allow)
    unfolding bounded_by
    bounded_by_iff evaluation allowed = ground arith

  -- Service control policies never grant: the result allows exactly if the identity is allowed and
  -- every level allows the request by itself.
  pub enforce_service_control_policies_iff :
      (identity : Evaluation) (levels : List (List PolicyDocument))
      → Allows (enforce_service_control_policies chrono request identity levels)
        ↔ ((identity.decision ≡ Decision.allow) × LevelsAllow levels)
  unfolding enforce_service_control_policies
  enforce_service_control_policies_iff identity levels = by_decision identity.decision refl
    where
      by_decision :
          (d : Decision)
          → identity.decision ≡ d
          → Allows (enforce_service_control_policies chrono request identity levels)
            ↔ ((identity.decision ≡ Decision.allow) × LevelsAllow levels)
      by_decision Decision.allow allowed = (
        λ h. (allowed, (scan_levels→ identity levels false allowed (simp allowed at h)).1),
        λ (_, h). simp allowed (scan_levels← identity levels allowed h),
      )
      by_decision Decision.deny denied = (λ (e, r, h). cc, λ (allowed, _). cc)

  pub enforce_permissions_boundary_iff :
      (identity : Evaluation) (boundary : Option PolicyDocument)
      → Allows (enforce_permissions_boundary chrono request identity boundary)
        ↔ ((identity.decision ≡ Decision.allow) × BoundaryAllows boundary)
  unfolding enforce_permissions_boundary
  enforce_permissions_boundary_iff identity none =
      (λ (e, r, h). (ground arith, tt), λ (allowed, _). (identity, refl, allowed))
  enforce_permissions_boundary_iff identity (some boundary) = by_decision identity.decision refl
    where
      by_decision :
          (d : Decision)
          → identity.decision ≡ d
          → Allows (enforce_permissions_boundary chrono request identity (some boundary))
            ↔ ((identity.decision ≡ Decision.allow) × BoundaryAllows (some boundary))
      by_decision Decision.allow allowed = (
        λ h.
            let (e, at, grant) = map_ok-Allows (bounded_by identity) _ (simp allowed at h) in
            (allowed, (e, at, (bounded_by_iff identity e allowed).0 grant)),
        λ (_, (e, at, grant)).
            simp (allowed, at)
              (bounded_by identity e, refl, (bounded_by_iff identity e allowed).1 grant),
      )
      by_decision Decision.deny denied = (λ (e, r, h). cc, λ (allowed, _). cc)

  session_reason-Allows :
      (r : Result PolicyError Evaluation) → Allows (map_ok name_session_policy r) ↔ Allows r
  session_reason-Allows (ok e) =
      (λ (e', r, h). (e, refl, cc), λ (e', r, h). (name_session_policy e, refl, cc))
  session_reason-Allows (err x) = (λ (e', r, h). cc, λ (e', r, h). cc)

  pub enforce_session_policy_iff :
      (identity : Evaluation) (policy : Option PolicyDocument)
      → Allows (enforce_session_policy chrono request identity policy)
        ↔ ((identity.decision ≡ Decision.allow) × BoundaryAllows policy)
  unfolding enforce_session_policy
  enforce_session_policy_iff identity policy = by_decision identity.decision refl
    where
      by_decision :
          (d : Decision)
          → identity.decision ≡ d
          → Allows (enforce_session_policy chrono request identity policy)
            ↔ ((identity.decision ≡ Decision.allow) × BoundaryAllows policy)
      by_decision Decision.allow allowed =
          let (bounded, unbounded) = enforce_permissions_boundary_iff identity policy in
          (
            λ h. bounded ((session_reason-Allows _).0 (simp allowed at h)),
            λ h. simp allowed ((session_reason-Allows _).1 (unbounded h)),
          )
      by_decision Decision.deny denied = (λ (e, r, h). cc, λ (allowed, _). cc)
