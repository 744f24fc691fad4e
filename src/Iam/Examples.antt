-- ===== src/Iam/Examples.antt =====
-- The IAM theorems at concrete policies, and runs of the code.
use mathlib.Core.List.Perm
use ipa_rs_hetero_cloud.Prelude.{
  ◌*◌, ◌≡◌, refl, ◌↔◌, ◌≢◌, String, true, false, ◌||◌, Option, none, some, [], ◌∷◌, arith, IsOk,
  Result, ok, err, ℤ, pos, negsuc, chars, bytes, utf8,
}
use ipa_rs_hetero_cloud.Iam.Pattern.{
  run_glob, glob_matches, pattern_matches, action_pattern_matches,
}
use ipa_rs_hetero_cloud.Iam.Pattern.Glob.{Fits}
use ipa_rs_hetero_cloud.Iam.Pattern.Total.{run_glob-ne-none}
use ipa_rs_hetero_cloud.Iam.Pattern.Complete.{glob_matches-Fits, glob_matches_iff}
use ipa_rs_hetero_cloud.Iam.Pattern.Wildcard.{glob_matches-star_in_text}
use ipa_rs_hetero_cloud.Iam.Policy.{
  Instant, Chrono, PolicyEffect, PolicyStatement, PolicyDocument, PolicyError, policy_version,
  validate,
}
use ipa_rs_hetero_cloud.Iam.Authorize.{
  AuthorizationRequest, Evaluation, Reason, explicit_allow, explicit_deny, authorize, applies,
  conditions_match,
}
use ipa_rs_hetero_cloud.Iam.Authorize.Grants.{
  Allows, SameOrganization, AllValid, Grants, authorize_iff,
}
use ipa_rs_hetero_cloud.Iam.Authorize.Order.{authorize-perm}
use ipa_rs_hetero_cloud.Iam.Limits.{
  AuthorizationContext, is_account_administrator, evaluate_account_permissions,
}
use ipa_rs_hetero_cloud.Iam.Limits.Pipeline.{LevelsAllow, BoundaryAllows}
use ipa_rs_hetero_cloud.Iam.Limits.Account.{IdentityAllows, evaluate_account_permissions_iff}
use ipa_rs_hetero_cloud.Iam.RoleTrust.{
  OneOrMany, TrustPrincipal, TrustStatement, RoleTrustDocument, permits, valid_principal,
}
use ipa_rs_hetero_cloud.Iam.RoleTrust
use ipa_rs_hetero_cloud.Iam.RoleTrust.Permits.{Names, permits_iff}
use ipa_rs_hetero_cloud.Iam.RoleTrust.Principal.{PrincipalText, valid_principal_iff}

-- Whole seconds are dates; the texts of RFC 3339 are not read.
abbrev seconds : ℤ → Option Instant
seconds (pos n) = some (pos (n * 1_000_000_000))
seconds (negsuc n) = none

abbrev chrono : Chrono
chrono = record { from_timestamp = seconds; parse_rfc3339 = λ s. none }

abbrev statement : PolicyEffect → String → String → PolicyStatement
statement effect action resource = record {
  effect = effect;
  sid = none;
  actions = action ∷ [];
  not_actions = [];
  resources = resource ∷ [];
  not_resources = [];
  conditions = [];
}

abbrev document : PolicyStatement → PolicyDocument
document st = record { version = policy_version; statements = st ∷ [] }

abbrev read_all : PolicyDocument
read_all = document (statement PolicyEffect.allow "project:*" "hc:org:*")

abbrev no_delete : PolicyDocument
no_delete = document (statement PolicyEffect.deny "project:delete" "*")

abbrev read_demo : AuthorizationRequest
read_demo = record {
  principal_organization_id = 7;
  resource_organization_id = 7;
  action = "project:Read";
  resource = "hc:org:7:project/demo";
  evaluated_at = pos 0;
}

abbrev delete_demo : AuthorizationRequest
delete_demo = record read_demo { action = "project:delete" }

abbrev reason_of : Result PolicyError Evaluation → Option Reason
reason_of (ok e) = some e.reason
reason_of (err x) = none

run_read : reason_of (authorize chrono read_demo (read_all ∷ no_delete ∷ [])) ≡ some explicit_allow
unfolding authorize validate applies conditions_match pattern_matches action_pattern_matches utf8
run_read = refl

run_delete :
    reason_of (authorize chrono delete_demo (read_all ∷ no_delete ∷ [])) ≡ some explicit_deny
unfolding authorize validate applies conditions_match pattern_matches action_pattern_matches utf8
run_delete = refl

read_all-valid : AllValid chrono (read_all ∷ no_delete ∷ [])
unfolding validate utf8
read_all-valid = (tt, (tt, tt))

glob_matches_iff_example :
    (glob_matches (chars "a*c?") (chars "abbcd") ≡ true) ↔ Fits (chars "a*c?") (chars "abbcd")
glob_matches_iff_example = glob_matches_iff (chars "a*c?") (chars "abbcd") (omega arith)

run_glob-ne-none_example : run_glob (chars "a*c?") (chars "abbcd") ≢ none
run_glob-ne-none_example = run_glob-ne-none (chars "a*c?") (chars "abbcd")

matched : glob_matches (chars "a*c?") (chars "abbcd") ≡ true
unfolding glob_matches
matched = refl

glob_matches-Fits_example : Fits (chars "a*c?") (chars "abbcd")
glob_matches-Fits_example = glob_matches-Fits (chars "a*c?") (chars "abbcd") matched

glob_matches-star_in_text_example :
    Fits (chars "org:*") (chars "org:*/x")
    × (glob_matches (chars "org:*") (chars "org:*/x") ≡ false)
glob_matches-star_in_text_example =
    glob_matches-star_in_text (chars "org:") b'/' (chars "x") (omega arith)

authorize_iff_example : Allows (authorize chrono read_demo (read_all ∷ no_delete ∷ [])) ↔ (
    SameOrganization read_demo
    × AllValid chrono (read_all ∷ no_delete ∷ [])
    × Grants chrono read_demo PolicyEffect.allow (read_all ∷ no_delete ∷ [])
    × ¬ Grants chrono read_demo PolicyEffect.deny (read_all ∷ no_delete ∷ []))
authorize_iff_example = authorize_iff chrono read_demo (read_all ∷ no_delete ∷ [])

authorize-perm_example :
    authorize chrono delete_demo (read_all ∷ no_delete ∷ [])
    ≡ authorize chrono delete_demo (no_delete ∷ read_all ∷ [])
authorize-perm_example =
    authorize-perm chrono delete_demo (read_all ∷ no_delete ∷ []) (no_delete ∷ read_all ∷ [])
      read_all-valid (Perm.swap no_delete read_all [])

abbrev member : AuthorizationContext
member = record { role = "admin"; policies = no_delete ∷ []; permissions_boundary = some read_all }

evaluate_account_permissions_iff_example :
    Allows (evaluate_account_permissions chrono read_demo member ((read_all ∷ []) ∷ []) false) ↔ (
      IdentityAllows chrono read_demo (no_delete ∷ []) (false || is_account_administrator "admin")
      × BoundaryAllows chrono read_demo (some read_all)
      × LevelsAllow chrono read_demo ((read_all ∷ []) ∷ []))
evaluate_account_permissions_iff_example =
    evaluate_account_permissions_iff chrono read_demo member ((read_all ∷ []) ∷ []) false

abbrev trust : RoleTrustDocument
trust = record {
  version = some "2012-10-17";
  statements = OneOrMany.one (record {
    sid = none;
    effect = PolicyEffect.allow;
    action = OneOrMany.one "sts:AssumeRole";
    principal = TrustPrincipal.accounts (OneOrMany.one "arn:aws:iam::111111111111:root");
  });
}

abbrev allowed_user : String
allowed_user = "arn:aws:iam::111111111111:user/allowed"

run_trust : permits "111111111111" allowed_user trust ≡ ok true
unfolding permits action_pattern_matches
run_trust = refl

permits_iff_example : (permits "111111111111" allowed_user trust ≡ ok true) ↔ (
    IsOk (RoleTrust.validate trust)
    × Names "111111111111" allowed_user PolicyEffect.allow trust
    × ¬ Names "111111111111" allowed_user PolicyEffect.deny trust)
permits_iff_example = permits_iff "111111111111" allowed_user trust

valid_principal_iff_example :
    (valid_principal (bytes "arn:aws:iam::111111111111:user/x") ≡ true)
    ↔ PrincipalText (bytes "arn:aws:iam::111111111111:user/x")
valid_principal_iff_example = valid_principal_iff (bytes "arn:aws:iam::111111111111:user/x")
