-- ===== src/Api/Examples.antt =====
-- Tokens and codes, and the theorems about them at concrete inputs.
use ipa_rs_hetero_cloud.Prelude.{◌≡◌, ◌↔◌, refl, ℕ, true, List, ◌++◌, arith, ok, err, chars}
use ipa_rs_hetero_cloud.Api.Tokens.{
  unauthorized, invalid_role_arn, invalid_role_name, parse_cli_access_token_prefix,
  parse_api_key_prefix, parse_flow_developer_credential_prefix, generate_flow_developer_credential,
  parse_iam_role_arn, validate_iam_role_name, valid_access_token,
}
use ipa_rs_hetero_cloud.Api.Tokens.Credentials.{generate_flow_developer_credential_lem}
use ipa_rs_hetero_cloud.Api.Tokens.Clients.{valid_access_token_iff}
use ipa_rs_hetero_cloud.Api.Tokens.Roles.{IsRoleArn, parse_iam_role_arn_iff}
use ipa_rs_hetero_cloud.Api.Codes.{
  internal, invalid_code, generate_cli_user_code, normalize_cli_user_code, valid_cli_device_code,
}
use ipa_rs_hetero_cloud.Api.Codes.Characters.{IsUserCode}
use ipa_rs_hetero_cloud.Api.Codes.Normal.{
  normalize_cli_user_code-normalize_cli_user_code, normalize_cli_user_code-generate_cli_user_code,
}

abbrev secret43 : List ℕ
secret43 = chars "0123456789abcdefghijklmnopqrstuvwxyzABC-_FG"

abbrev cli_token : List ℕ
cli_token = chars "hcu_0123456789abc_de_0123456789abcdefghijklmnopqrstuvwxyzABC-_FG"

-- The prefix may hold separators of its own.
prefix_test : parse_cli_access_token_prefix cli_token ≡ ok (chars "0123456789abc_de")
unfolding parse_cli_access_token_prefix
prefix_test = refl

short_test : parse_cli_access_token_prefix (chars "hcu_short_secret") ≡ err unauthorized
unfolding parse_cli_access_token_prefix
short_test = refl

kept_test : valid_access_token cli_token ≡ true
unfolding valid_access_token
kept_test = refl

valid_access_token_iff_example :
    (valid_access_token cli_token ≡ true)
    ↔ ((prefix : List ℕ) × (parse_cli_access_token_prefix cli_token ≡ ok prefix))
valid_access_token_iff_example = valid_access_token_iff cli_token

api_key_test :
    parse_api_key_prefix (chars "hc_0123456789abcdef_0123456789abcdefghijklmnopqrstuvwxyzABCDEFG")
    ≡ ok (chars "0123456789abcdef")
unfolding parse_api_key_prefix
api_key_test = refl

uppercase_test :
    parse_flow_developer_credential_prefix (chars "hcf_0123456789abcdeF_" ++ secret43)
    ≡ err unauthorized
unfolding parse_flow_developer_credential_prefix
uppercase_test = refl

generate_flow_developer_credential_lem_example :
    parse_flow_developer_credential_prefix
      (generate_flow_developer_credential (chars "0123456789abcdef0123456789abcdef") secret43).1
    ≡ ok (generate_flow_developer_credential (chars "0123456789abcdef0123456789abcdef") secret43).0
generate_flow_developer_credential_lem_example =
    generate_flow_developer_credential_lem (chars "0123456789abcdef0123456789abcdef") secret43
      (omega arith) refl refl refl

role_test :
    parse_iam_role_arn (chars "arn:aws:iam::123456789012:role/Deploy")
    ≡ ok (chars "123456789012", chars "Deploy")
unfolding parse_iam_role_arn
role_test = refl

user_test :
    parse_iam_role_arn (chars "arn:aws:iam::123456789012:user/Deploy") ≡ err invalid_role_arn
unfolding parse_iam_role_arn
user_test = refl

role_name_test : validate_iam_role_name (chars "De/ploy") ≡ err invalid_role_name
unfolding validate_iam_role_name
role_name_test = refl

parse_iam_role_arn_iff_example :
    (parse_iam_role_arn (chars "arn:aws:iam::123456789012:role/Deploy")
      ≡ ok (chars "123456789012", chars "Deploy"))
    ↔ IsRoleArn
        (chars "123456789012")
        (chars "Deploy")
        (chars "arn:aws:iam::123456789012:role/Deploy")
parse_iam_role_arn_iff_example =
    parse_iam_role_arn_iff (chars "arn:aws:iam::123456789012:role/Deploy") (chars "123456789012")
      (chars "Deploy")

normal_test : normalize_cli_user_code (chars "  ab12cd34-ef56 ") ≡ ok (chars "AB12-CD34-EF56")
unfolding normalize_cli_user_code
normal_test = refl

-- `é` is one char and two bytes.
accent_test : normalize_cli_user_code (chars "ab12-cd34-ef5é") ≡ err invalid_code
unfolding normalize_cli_user_code
accent_test = refl

generated_test : generate_cli_user_code (chars "a-b_c1d2e3f4g5h6i7") ≡ ok (chars "ABC1-D2E3-F4G5")
unfolding generate_cli_user_code
generated_test = refl

few_letters_test : generate_cli_user_code (chars "a-b_c") ≡ err internal
unfolding generate_cli_user_code
few_letters_test = refl

device_code_test : valid_cli_device_code (chars "hcd_" ++ secret43) ≡ true
unfolding valid_cli_device_code
device_code_test = refl

normalize_cli_user_code-normalize_cli_user_code_example :
    IsUserCode (chars "AB12-CD34-EF56")
    × (normalize_cli_user_code (chars "AB12-CD34-EF56") ≡ ok (chars "AB12-CD34-EF56"))
normalize_cli_user_code-normalize_cli_user_code_example =
    normalize_cli_user_code-normalize_cli_user_code (chars "  ab12cd34-ef56 ")
      (chars "AB12-CD34-EF56") normal_test

normalize_cli_user_code-generate_cli_user_code_example :
    normalize_cli_user_code (chars "ABC1-D2E3-F4G5") ≡ ok (chars "ABC1-D2E3-F4G5")
normalize_cli_user_code-generate_cli_user_code_example =
    normalize_cli_user_code-generate_cli_user_code (chars "a-b_c1d2e3f4g5h6i7")
      (chars "ABC1-D2E3-F4G5") generated_test
