-- ===== src/Iam/Limits.antt =====
-- What is laid on the evaluation of the identity's policies: the administrator role, the
-- permissions boundary, service control policies and the session policy, as in
-- crates/heterocloud-iam/src/lib.rs, and their order in crates/heterocloud-api/src/routes.rs.
pub mod Pipeline
pub mod Account
use ipa_rs_hetero_cloud.Prelude.{
  String, Bool, true, false, not, ◌&&◌, ◌||◌, Option, none, some, List, [], ◌∷◌, if◌then◌else◌,
  Result, ok, err, ◌>>=◌, map_ok, str_eq,
}
use ipa_rs_hetero_cloud.Iam.Policy.{Chrono, PolicyDocument, PolicyError}
use ipa_rs_hetero_cloud.Iam.Authorize.{
  Decision, allow, deny, AuthorizationRequest, Reason, default_deny, administrator_allow,
  self_service_allow, scp_explicit_deny, scp_no_allow, permissions_boundary_explicit_deny,
  permissions_boundary_no_allow, session_policy_explicit_deny, session_policy_no_allow, Evaluation,
  authorize,
}

abbrev pub is_deny : Decision → Bool
is_deny allow = false
is_deny deny = true

abbrev pub is_default_deny : Reason → Bool
is_default_deny default_deny = true
is_default_deny _ = false

abbrev pub is_administrator_allow : Reason → Bool
is_administrator_allow administrator_allow = true
is_administrator_allow _ = false

-- The `match` that renames the reasons of a boundary to those of a session policy.
unfoldable pub session_reason : Reason → Reason
session_reason permissions_boundary_explicit_deny = session_policy_explicit_deny
session_reason permissions_boundary_no_allow = session_policy_no_allow
session_reason reason = reason

abbrev pub name_session_policy : Evaluation → Evaluation
name_session_policy evaluation = record evaluation { reason = session_reason evaluation.reason }

unfoldable pub grant_administrator : Bool → Evaluation → Evaluation
grant_administrator administrator evaluation =
    if administrator && is_default_deny evaluation.reason
    then record evaluation {
      decision = allow;
      applicable_allow = true;
      reason = administrator_allow;
    }
    else evaluation

-- What is returned once the boundary has been evaluated.
unfoldable pub bounded_by : Evaluation → Evaluation → Evaluation
bounded_by identity evaluation =
    if is_deny evaluation.decision
    then record {
      decision = deny;
      applicable_allow = identity.applicable_allow;
      applicable_deny = evaluation.applicable_deny;
      reason =
          if evaluation.applicable_deny
          then permissions_boundary_explicit_deny
          else permissions_boundary_no_allow;
    }
    else identity

-- An explicit deny at a level ends the loop.
unfoldable pub after_level :
    Evaluation → Evaluation → Result PolicyError Evaluation → Result PolicyError Evaluation
after_level identity evaluation onward =
    if evaluation.applicable_deny
    then ok (record {
      decision = deny;
      applicable_allow = identity.applicable_allow;
      applicable_deny = true;
      reason = scp_explicit_deny;
    })
    else onward

-- `return` behind the loop over the levels.
unfoldable pub after_levels : Evaluation → Bool → Evaluation
after_levels identity no_allow =
    if no_allow
    then record {
      decision = deny;
      applicable_allow = identity.applicable_allow;
      applicable_deny = false;
      reason = scp_no_allow;
    }
    else identity

module _ (chrono : Chrono) (request : AuthorizationRequest) where
  unfoldable pub authorize_with_administrator :
      List PolicyDocument → Bool → Result PolicyError Evaluation
  unfolding grant_administrator
  authorize_with_administrator policies administrator =
      map_ok (grant_administrator administrator) (authorize chrono request policies)

  -- The loop over the levels; `no_allow` is its flag.
  unfoldable pub scan_levels :
      Evaluation → List (List PolicyDocument) → Bool → Result PolicyError Evaluation
  unfolding after_level after_levels
  scan_levels identity [] no_allow = ok (after_levels identity no_allow)
  scan_levels identity (policies ∷ rest) no_allow = do
    evaluation ← authorize chrono request policies
    let onward = scan_levels identity rest (no_allow || is_deny evaluation.decision)
    after_level identity evaluation onward

  unfoldable pub enforce_service_control_policies :
      Evaluation → List (List PolicyDocument) → Result PolicyError Evaluation
  unfolding scan_levels
  enforce_service_control_policies identity levels =
      if is_deny identity.decision then ok identity else scan_levels identity levels false

  unfoldable pub enforce_permissions_boundary :
      Evaluation → Option PolicyDocument → Result PolicyError Evaluation
  unfolding bounded_by
  enforce_permissions_boundary identity none = ok identity
  enforce_permissions_boundary identity (some boundary) =
      if is_deny identity.decision
      then ok identity
      else map_ok (bounded_by identity) (authorize chrono request (boundary ∷ []))

  unfoldable pub enforce_session_policy :
      Evaluation → Option PolicyDocument → Result PolicyError Evaluation
  unfolding enforce_permissions_boundary session_reason
  enforce_session_policy identity session_policy =
      if is_deny identity.decision
      then ok identity
      else map_ok name_session_policy (enforce_permissions_boundary identity session_policy)

-- `AuthorizationContext`, the fields that the evaluation reads.
pub record AuthorizationContext : Type 0 where
  pub role : String
  pub policies : List PolicyDocument
  pub permissions_boundary : Option PolicyDocument

abbrev pub is_account_administrator : String → Bool
is_account_administrator role = str_eq role "owner" || str_eq role "admin"

unfoldable pub name_self_service : Bool → String → Evaluation → Evaluation
name_self_service implicit_allow role identity =
    if implicit_allow
      && (not (is_account_administrator role) && is_administrator_allow identity.reason)
    then record identity { reason = self_service_allow }
    else identity

-- `evaluate_account_permissions` of routes.rs, with the levels that the store returned.
unfoldable pub evaluate_account_permissions :
    Chrono
    → AuthorizationRequest
    → AuthorizationContext
    → List (List PolicyDocument)
    → Bool
    → Result PolicyError Evaluation
unfolding name_self_service
evaluate_account_permissions chrono request context levels implicit_allow = do
  identity ←
      authorize_with_administrator chrono request context.policies
        (implicit_allow || is_account_administrator context.role)
  bounded ←
      enforce_permissions_boundary chrono request
        (name_self_service implicit_allow context.role identity) context.permissions_boundary
  enforce_service_control_policies chrono request bounded levels
