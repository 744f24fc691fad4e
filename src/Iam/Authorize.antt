-- ===== src/Iam/Authorize.antt =====
-- The evaluation of policies: `authorize` of crates/heterocloud-iam/src/lib.rs, and the limits
-- that are laid on it by an administrator role, a permissions boundary, SCPs and a session policy.
pub mod Grants
pub mod Order
use ipa_rs_hetero_cloud.Prelude.{
  ℕ, String, Bool, true, false, not, ◌&&◌, ◌||◌, Option, none, some, List, [], ◌∷◌, ◌==◌,
  if◌then◌else◌, is_empty, all, any, is_some_and, Result, ok, err, ◌>>=◌, ◌>>◌, map_ok, ltb_ℤ,
  leb_ℤ, eq_ℤ, str_eq,
}
use ipa_rs_hetero_cloud.Iam.Pattern.{pattern_matches, action_pattern_matches}
use ipa_rs_hetero_cloud.Iam.Policy.{
  Instant, Chrono, PolicyEffect, PolicyConditions, PolicyStatement, PolicyDocument, PolicyError,
  parse_iam_condition_date, validate,
}

pub data Decision : Type 0 where
  allow deny : Decision

pub record AuthorizationRequest : Type 0 where
  pub principal_organization_id : ℕ
  pub resource_organization_id : ℕ
  pub action : String
  pub resource : String
  pub evaluated_at : Instant

-- The texts of `Evaluation::reason`.
pub data Reason : Type 0 where
  cross_organization explicit_deny explicit_allow default_deny administrator_allow : Reason
  self_service_allow scp_explicit_deny scp_no_allow : Reason
  permissions_boundary_explicit_deny permissions_boundary_no_allow : Reason
  session_policy_explicit_deny session_policy_no_allow : Reason

pub record Evaluation : Type 0 where
  pub decision : Decision
  pub applicable_allow : Bool
  pub applicable_deny : Bool
  pub reason : Reason

unfoldable pub decide : Bool → Bool → Bool → Decision
decide same_organization applicable_allow applicable_deny =
    if not same_organization || applicable_deny
    then deny
    else if applicable_allow
    then allow
    else deny

-- The `match` on the operator's name, at a date that has been parsed.
unfoldable pub compare_dates : String → Instant → Instant → Bool
compare_dates operator now date =
    if str_eq operator "DateEquals" || str_eq operator "DateNotEquals"
    then eq_ℤ now date
    else if str_eq operator "DateLessThan"
    then ltb_ℤ now date
    else if str_eq operator "DateLessThanEquals"
    then leb_ℤ now date
    else if str_eq operator "DateGreaterThan"
    then ltb_ℤ date now
    else if str_eq operator "DateGreaterThanEquals"
    then leb_ℤ date now
    else false

-- `actions`/`not_actions` and `resources`/`not_resources`.
unfoldable pub selects : (String → String → Bool) → List String → List String → String → Bool
selects test patterns [] value = any (λ p. test p value) patterns
selects test patterns (n ∷ ns) value = not (any (λ p. test p value) (n ∷ ns))

-- `applicable_allow` and `applicable_deny` of the loop.
pub record Flags : Type 0 where
  pub applicable_allow : Bool
  pub applicable_deny : Bool

unfoldable pub mark : PolicyEffect → Flags → Flags
mark PolicyEffect.allow flags = record flags { applicable_allow = true }
mark PolicyEffect.deny flags = record flags { applicable_deny = true }

module _ (chrono : Chrono) (request : AuthorizationRequest) where
  unfoldable pub date_matches : String → String → Bool
  unfolding compare_dates
  date_matches operator value =
      is_some_and (λ date. compare_dates operator request.evaluated_at date)
        (parse_iam_condition_date chrono value)

  unfoldable pub values_match : String → List String → Bool
  unfolding date_matches
  values_match operator values =
      if str_eq operator "DateNotEquals"
      then all (λ value. not (date_matches operator value)) values
      else any (date_matches operator) values

  unfoldable pub conditions_match : PolicyConditions → Bool
  unfolding values_match
  conditions_match conditions =
      all (λ (operator, keys). all (λ (_, values). values_match operator values) keys) conditions

  -- `action_matches && resource_matches && conditions_match(statement, request)`
  unfoldable pub applies : PolicyStatement → Bool
  unfolding selects
  applies statement =
      selects action_pattern_matches statement.actions statement.not_actions request.action
      && selects pattern_matches statement.resources statement.not_resources request.resource
      && conditions_match statement.conditions

  unfoldable pub scan_statements : List PolicyStatement → Flags → Flags
  unfolding mark
  scan_statements [] flags = flags
  scan_statements (statement ∷ rest) flags =
      scan_statements rest (if applies statement then mark statement.effect flags else flags)

  unfoldable pub scan_policies : List PolicyDocument → Flags → Result PolicyError Flags
  unfolding scan_statements
  scan_policies [] flags = ok flags
  scan_policies (policy ∷ rest) flags =
      validate chrono policy >> scan_policies rest (scan_statements policy.statements flags)

  -- What `authorize` returns behind the loops.
  unfoldable pub conclude : Flags → Evaluation
  unfolding decide
  conclude flags = record {
    decision = decide true flags.applicable_allow flags.applicable_deny;
    applicable_allow = flags.applicable_allow;
    applicable_deny = flags.applicable_deny;
    reason =
        if flags.applicable_deny
        then explicit_deny
        else if flags.applicable_allow
        then explicit_allow
        else default_deny;
  }

  unfoldable pub authorize : List PolicyDocument → Result PolicyError Evaluation
  unfolding scan_policies conclude
  authorize policies =
      if request.principal_organization_id == request.resource_organization_id
      then map_ok conclude
          (scan_policies policies (record { applicable_allow = false; applicable_deny = false }))
      else ok (record {
        decision = deny;
        applicable_allow = false;
        applicable_deny = false;
        reason = cross_organization;
      })
