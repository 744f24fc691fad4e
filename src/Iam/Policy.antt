-- ===== src/Iam/Policy.antt =====
-- The policy document of crates/heterocloud-domain/src/lib.rs and its validation.
-- Dates are parsed by the chrono crate, which is the parameter `Chrono`.
use ipa_rs_hetero_cloud.Prelude.{
  ℕ, ◌+◌, ◌*◌, ◌-◌, ◌^◌, String, Bool, true, false, not, ◌||◌, Option, none, some, List, [], ◌∷◌,
  ◌++◌, map, ltb, leb, ◌==◌, if◌then◌else◌, length, is_empty, any, is_none, Result, ◌>>◌, reject_if,
  for_each, ℤ, pos, negsuc, chars, byte_len, is_ascii_digit, is_whitespace, to_ascii_lowercase,
  same_text, str_eq,
}

-- An instant, `DateTime<Utc>`, is the number of nanoseconds since the epoch.
abbrev pub Instant : Type 0
Instant = ℤ

pub record Chrono : Type 0 where
  -- `DateTime::from_timestamp(seconds, 0)`
  pub from_timestamp : ℤ → Option Instant
  -- `DateTime::parse_from_rfc3339`, in UTC
  pub parse_rfc3339 : String → Option Instant

pub data PolicyEffect : Type 0 where
  allow deny : PolicyEffect

-- Operators, then context keys, then values: a `BTreeMap` in the order of its keys.
abbrev pub PolicyConditions : Type 0
PolicyConditions = List (String × List (String × List String))

pub record PolicyStatement : Type 0 where
  pub effect : PolicyEffect
  pub sid : Option String
  pub actions : List String
  pub not_actions : List String
  pub resources : List String
  pub not_resources : List String
  pub conditions : PolicyConditions

pub record PolicyDocument : Type 0 where
  pub version : String
  pub statements : List PolicyStatement

-- `DomainError`, one constructor for each message of `InvalidPolicy`.
pub data PolicyError : Type 0 where
  unsupported_policy_version unsupported_operator : String → PolicyError
  statement_count statement_shape pattern_shape : PolicyError
  operator_count key_count bad_key_or_dates : PolicyError
  empty_condition date_type : PolicyError

abbrev pub policy_version : String
policy_version = "2026-07-31"

-- `str::parse::<i64>`: a sign, at least one digit, and a value in range.
unfoldable pub parse_digits : List ℕ → ℕ → Option ℕ
parse_digits [] n = some n
parse_digits (c ∷ s) n =
    let rest = parse_digits s (n * 10 + (c - b'0')) in if is_ascii_digit c then rest else none

abbrev pub nonnegative : Option ℕ → Option ℤ
nonnegative none = none
nonnegative (some n) = if ltb n (2 ^ 63) then some (pos n) else none

abbrev pub negative : Option ℕ → Option ℤ
negative none = none
negative (some n) =
    if n == 0 then some (pos 0) else if leb n (2 ^ 63) then some (negsuc (n - 1)) else none

abbrev pub parse_unsigned : List ℕ → Option ℕ
parse_unsigned [] = none
parse_unsigned (c ∷ s) = parse_digits (c ∷ s) 0

unfoldable pub parse_i64 : List ℕ → Option ℤ
unfolding parse_digits
parse_i64 [] = none
parse_i64 (c ∷ s) =
    if c == b'-'
    then negative (parse_unsigned s)
    else nonnegative (parse_unsigned (if c == b'+' then s else c ∷ s))

unfoldable pub date_operator : String → Bool
date_operator operator =
    str_eq operator "DateEquals"
    || str_eq operator "DateNotEquals"
    || str_eq operator "DateLessThan"
    || str_eq operator "DateLessThanEquals"
    || str_eq operator "DateGreaterThan"
    || str_eq operator "DateGreaterThanEquals"

unfoldable pub eq_ignore_ascii_case : String → String → Bool
unfolding to_ascii_lowercase same_text
eq_ignore_ascii_case s t =
    same_text (map to_ascii_lowercase (chars s)) (map to_ascii_lowercase (chars t))

unfoldable pub validate_pattern : String → Result PolicyError (Unit {0})
unfolding is_whitespace
validate_pattern pattern =
    reject_if
      (is_empty (chars pattern) || ltb 512 (byte_len pattern) || any is_whitespace (chars pattern))
      pattern_shape

module _ (chrono : Chrono) where
  unfoldable pub parse_iam_condition_date : String → Option Instant
  unfolding parse_i64
  parse_iam_condition_date value = elim (parse_i64 (chars value)) [
    | some seconds ↦ chrono.from_timestamp seconds
    | none ↦ chrono.parse_rfc3339 value
  ]

  unfoldable pub validate_key : String × List String → Result PolicyError (Unit {0})
  unfolding parse_iam_condition_date eq_ignore_ascii_case
  validate_key (key, values) =
      reject_if
        (not (eq_ignore_ascii_case key "aws:CurrentTime")
          || is_empty values
          || ltb 128 (length values)
          || any (λ v. ltb 64 (byte_len v) || is_none (parse_iam_condition_date v)) values)
        bad_key_or_dates

  unfoldable pub validate_operator :
      String × List (String × List String) → Result PolicyError (Unit {0})
  unfolding validate_key date_operator
  validate_operator (operator, keys) = do
    reject_if (not (date_operator operator)) (unsupported_operator operator)
    reject_if (not (length keys == 1)) key_count
    for_each validate_key keys

  unfoldable pub validate_policy_conditions : PolicyConditions → Result PolicyError (Unit {0})
  unfolding validate_operator
  validate_policy_conditions conditions = do
    reject_if (ltb 6 (length conditions)) operator_count
    for_each validate_operator conditions

  abbrev same_test : Bool → Bool → Bool
  same_test true b = b
  same_test false b = not b

  -- The body of the loop over the statements.
  unfoldable pub validate_statement : PolicyStatement → Result PolicyError (Unit {0})
  unfolding validate_policy_conditions validate_pattern
  validate_statement statement = do
    reject_if
        (same_test (is_empty statement.actions) (is_empty statement.not_actions)
          || same_test (is_empty statement.resources) (is_empty statement.not_resources)
          || ltb 128 (length statement.actions)
          || ltb 128 (length statement.not_actions)
          || ltb 128 (length statement.resources)
          || ltb 128 (length statement.not_resources))
        statement_shape
    for_each validate_pattern (
        statement.actions
        ++ (statement.not_actions ++ (statement.resources ++ statement.not_resources)))
    validate_policy_conditions statement.conditions

  -- `PolicyDocument::validate`
  unfoldable pub validate : PolicyDocument → Result PolicyError (Unit {0})
  unfolding validate_statement
  validate document = do
    reject_if (not (str_eq document.version policy_version))
        (unsupported_policy_version document.version)
    reject_if (is_empty document.statements || ltb 128 (length document.statements)) statement_count
    for_each validate_statement document.statements
