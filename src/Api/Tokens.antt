-- ===== src/Api/Tokens.antt =====
-- Bearer tokens in crates/heterocloud-api/src/routes.rs and, as the command line tests them, in
-- crates/heterocloud-cli/src/auth.rs. A text is the list of its bytes.
pub mod Credentials
pub mod Prefixes
pub mod Clients
pub mod Roles
use ipa_rs_hetero_cloud.Prelude.{
  ℕ, ◌+◌, Bool, true, false, not, ◌&&◌, ◌||◌, Option, none, some, List, [], ◌∷◌, ◌++◌, length, all,
  any, take, if◌then◌else◌, ltb, leb, ◌==◌, is_some_and, Result, ok, err, ◌>>=◌, ◌>>◌, ok_or,
  reject_if, chars, same_text, strip_prefix, split_once, get_to, get_from, is_ascii_alphanumeric,
  is_ascii_digit, is_whitespace, is_control,
}

pub data ApiError : Type 0 where
  unauthorized invalid_role_arn invalid_role_name : ApiError

-- `is_ascii_alphanumeric() || matches!(c, '-' | '_')`. On bytes this is the test on chars, since no
-- byte of a char beyond ASCII passes.
abbrev pub url_char : ℕ → Bool
url_char c = is_ascii_alphanumeric c || (c == b'-' || c == b'_')

abbrev pub hex_char : ℕ → Bool
hex_char c = is_ascii_digit c || (leb b'a' c && leb c b'f')

unfoldable pub parse_cli_access_token_prefix : List ℕ → Result ApiError (List ℕ)
unfolding strip_prefix get_to get_from
parse_cli_access_token_prefix token = do
  value ← ok_or (strip_prefix (chars "hcu_") token) unauthorized
  prefix ← ok_or (get_to 16 value) unauthorized
  rest ← ok_or (get_from 16 value) unauthorized
  secret ← ok_or (strip_prefix (chars "_") rest) unauthorized
  reject_if (ltb (length secret) 32 || not (all url_char (prefix ++ secret))) unauthorized
  ok prefix

-- `splitn(3, '_')` yields the text before the first separator, the text before the second one and
-- the rest.
unfoldable pub parse_api_key_prefix : List ℕ → Result ApiError (List ℕ)
unfolding split_once same_text
parse_api_key_prefix token = do
  (first, others) ← ok_or (split_once b'_' token) unauthorized
  reject_if (not (same_text first (chars "hc"))) unauthorized
  (prefix, secret) ← ok_or (split_once b'_' others) unauthorized
  reject_if (not (length prefix == 16) || ltb (length secret) 32) unauthorized
  ok prefix

abbrev pub fragment_length : ℕ
fragment_length = 16

abbrev pub secret_length : ℕ
secret_length = 43

unfoldable pub parse_flow_developer_credential_prefix : List ℕ → Result ApiError (List ℕ)
unfolding strip_prefix split_once get_to
parse_flow_developer_credential_prefix token = do
  rest ← ok_or (strip_prefix (chars "hcf_") token) unauthorized
  (fragment, secret) ← ok_or (split_once b'_' rest) unauthorized
  reject_if
      (not (length fragment == fragment_length)
        || not (all hex_char fragment)
        || not (length secret == secret_length)
        || not (all url_char secret))
      unauthorized
  ok_or (get_to (length (chars "hcf_") + fragment_length) token) unauthorized

-- `generate_flow_developer_credential` from the hexadecimal digits of a new `Uuid` and a secret: the
-- prefix that is stored, and the credential.
unfoldable pub generate_flow_developer_credential : List ℕ → List ℕ → List ℕ × List ℕ
generate_flow_developer_credential uuid secret =
    (chars "hcf_" ++ take 16 uuid, (chars "hcf_" ++ take 16 uuid) ++ b'_' ∷ secret)

unfoldable pub validate_iam_role_name : List ℕ → Result ApiError (Unit {0})
validate_iam_role_name name =
    reject_if
      (ltb (length name) 1
        || ltb 64 (length name)
        || not (all (λ b. is_ascii_alphanumeric b || any (λ c. c == b) (chars "+=,.@_-")) name))
      invalid_role_name

-- `str::split_once` at a text: what stands before its first occurrence, and behind it.
unfoldable pub split_at_text : List ℕ → List ℕ → Option (List ℕ × List ℕ)
unfolding strip_prefix
split_at_text sep [] = none
split_at_text sep (c ∷ s) =
    let later = split_at_text sep s in
    elim (strip_prefix sep (c ∷ s)) [
      | some rest ↦ some ([], rest)
      | none ↦ elim later [ none ↦ none | some (a, b) ↦ some (c ∷ a, b) ]
    ]

unfoldable pub parse_iam_role_arn : List ℕ → Result ApiError (List ℕ × List ℕ)
unfolding strip_prefix split_at_text validate_iam_role_name
parse_iam_role_arn arn = do
  rest ← ok_or (strip_prefix (chars "arn:aws:iam::") arn) invalid_role_arn
  (account, name) ← ok_or (split_at_text (chars ":role/") rest) invalid_role_arn
  reject_if (not (length account == 12) || not (all is_ascii_digit account)) invalid_role_arn
  validate_iam_role_name name
  ok (account, name)

-- The tests of `valid_access_token` on the prefix and the secret, and on the whole. Those for white
-- space and control characters come last, where every char is ASCII and a byte is a char.
unfoldable pub valid_parts : List ℕ → List ℕ → List ℕ → Bool
unfolding is_whitespace is_control
valid_parts value prefix secret =
    length prefix == 16
    && leb 32 (length secret)
    && all url_char (prefix ++ secret)
    && not (any is_whitespace value)
    && not (any is_control value)

-- `valid_access_token` of the command line.
unfoldable pub valid_access_token : List ℕ → Bool
unfolding strip_prefix get_to get_from valid_parts
valid_access_token value = elim (strip_prefix (chars "hcu_") value) [
  | none ↦ false
  | some rest ↦ elim (get_to 16 rest) [
    | none ↦ false
    | some prefix ↦ elim (get_from 16 rest) [
      | none ↦ false
      | some more ↦ elim (strip_prefix (chars "_") more) [
        | none ↦ false
        | some secret ↦ valid_parts value prefix secret
      ]
    ]
  ]
]
