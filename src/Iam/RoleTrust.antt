-- ===== src/Iam/RoleTrust.antt =====
-- crates/heterocloud-iam/src/role_trust.rs: who may assume a role.
pub mod Permits
pub mod Principal
use ipa_rs_hetero_cloud.Prelude.{
  ℕ, String, Bool, true, false, not, ◌&&◌, ◌||◌, Option, none, some, List, [], ◌∷◌, ◌++◌, ltb, leb,
  ◌==◌, if◌then◌else◌, length, is_empty, all, any, is_some_and, Result, ok, err, ◌>>=◌, ◌>>◌,
  map_ok, reject_if, for_each, chars, bytes, byte_len, is_ascii_digit, is_ascii_alphanumeric,
  is_whitespace, same_text, strip_prefix, split_once, str_eq, utf8,
}
use ipa_rs_hetero_cloud.Iam.Pattern.{action_pattern_matches}
use ipa_rs_hetero_cloud.Iam.Policy.{PolicyEffect}

pub data OneOrMany {ℓ} (A : Type ℓ) : Type ℓ where
  one : A → OneOrMany A
  many : List A → OneOrMany A

abbrev pub items {ℓ} : {A : Type ℓ} → OneOrMany A → List A
items (one item) = item ∷ []
items (many list) = list

-- `TrustPrincipal`, with the one field of `TrustAccounts`.
pub data TrustPrincipal : Type 0 where
  wildcard : String → TrustPrincipal
  accounts : OneOrMany String → TrustPrincipal

pub record TrustStatement : Type 0 where
  pub sid : Option String
  pub effect : PolicyEffect
  pub action : OneOrMany String
  pub principal : TrustPrincipal

pub record RoleTrustDocument : Type 0 where
  pub version : Option String
  pub statements : OneOrMany TrustStatement

pub data RoleTrustError : Type 0 where
  unsupported_version statement_count invalid_action bad_wildcard bad_principal : RoleTrustError

abbrev pub all_digits : List ℕ → Bool
all_digits = all is_ascii_digit

-- The bytes of `+=,.@_-/`.
unfoldable pub name_byte : ℕ → Bool
name_byte b =
    is_ascii_alphanumeric b
    || (b == b'+'
        || b == b'='
        || b == b','
        || b == b'.'
        || b == b'@'
        || b == b'_'
        || b == b'-'
        || b == b'/')

-- `strip_prefix("user/").or_else(|| strip_prefix("role/"))`
unfoldable pub principal_name : List ℕ → Option (List ℕ)
unfolding strip_prefix
principal_name path = elim (strip_prefix (bytes "user/") path) [
  | some name ↦ some name
  | none ↦ strip_prefix (bytes "role/") path
]

unfoldable pub valid_name : List ℕ → Bool
unfolding name_byte
valid_name name = not (is_empty name) && (leb (length name) 256 && all name_byte name)

unfoldable pub valid_account : List ℕ → Bool
valid_account account = length account == 12 && all_digits account

-- The text behind `arn:aws:iam::`.
unfoldable pub valid_arn_rest : List ℕ → Bool
unfolding split_once valid_account principal_name valid_name same_text
valid_arn_rest rest = elim (split_once b':' rest) [
  | none ↦ false
  | some (account, path) ↦
      valid_account account
      && (same_text path (bytes "root") || is_some_and valid_name (principal_name path))
]

-- On the UTF-8 bytes of the value; every separator is one byte.
unfoldable pub valid_principal : List ℕ → Bool
unfolding valid_arn_rest valid_account same_text strip_prefix utf8
valid_principal value =
    same_text value (bytes "*")
    || valid_account value
    || is_some_and valid_arn_rest (strip_prefix (bytes "arn:aws:iam::") value)

unfoldable pub bad_action : String → Bool
unfolding is_whitespace
bad_action action =
    is_empty (chars action) || ltb 128 (byte_len action) || any is_whitespace (chars action)

unfoldable pub validate_principal : TrustPrincipal → Result RoleTrustError (Unit {0})
unfolding valid_principal
validate_principal (wildcard value) = reject_if (not (str_eq value "*")) bad_wildcard
validate_principal (accounts aws) =
    reject_if
      (is_empty (items aws)
        || ltb 128 (length (items aws))
        || any (λ p. not (valid_principal (bytes p))) (items aws))
      bad_principal

-- The body of the loop over the statements.
unfoldable pub validate_statement : TrustStatement → Result RoleTrustError (Unit {0})
unfolding bad_action validate_principal
validate_statement statement = do
  reject_if
      (is_empty (items statement.action)
        || ltb 128 (length (items statement.action))
        || any bad_action (items statement.action))
      invalid_action
  validate_principal statement.principal

unfoldable pub validate : RoleTrustDocument → Result RoleTrustError (Unit {0})
unfolding validate_statement
validate document = do
  reject_if
      (is_some_and (λ v. not (str_eq v "2012-10-17") && not (str_eq v "2008-10-17"))
        document.version)
      unsupported_version
  reject_if (is_empty (items document.statements) || ltb 128 (length (items document.statements)))
      statement_count
  for_each validate_statement (items document.statements)

module _ (caller_account caller_arn : String) where
  -- `format!("arn:aws:iam::{caller_account}:root")`, on chars.
  abbrev root_arn : List ℕ
  root_arn = chars "arn:aws:iam::" ++ (chars caller_account ++ chars ":root")

  unfoldable pub names_caller : TrustPrincipal → Bool
  unfolding same_text
  names_caller (wildcard value) = str_eq value "*"
  names_caller (accounts aws) =
      any
        (λ value.
          str_eq value "*"
          || str_eq value caller_arn
          || str_eq value caller_account
          || same_text (chars value) root_arn)
        (items aws)

  -- The statement's actions cover `sts:AssumeRole` and its principal names the caller.
  unfoldable pub statement_matches : TrustStatement → Bool
  unfolding names_caller
  statement_matches statement =
      any (λ action. action_pattern_matches action "sts:AssumeRole") (items statement.action)
      && names_caller statement.principal

  -- The loop; a matching deny returns at once.
  unfoldable pub scan : List TrustStatement → Bool → Bool
  unfolding statement_matches
  scan [] allowed = allowed
  scan (statement ∷ rest) allowed =
      let onward = scan rest allowed in
      let granted = scan rest true in
      if statement_matches statement
      then elim statement.effect [ PolicyEffect.deny ↦ false | PolicyEffect.allow ↦ granted ]
      else onward

  unfoldable pub permits : RoleTrustDocument → Result RoleTrustError Bool
  unfolding scan validate
  permits document = validate document >> ok (scan (items document.statements) false)
