-- ===== src/Iam/RoleTrust/Principal.antt =====
-- The principals that a trust policy may name, as a grammar.
use ipa_rs_hetero_cloud.Prelude.{
  ℕ, ◌≤◌, ◌≡◌, refl, ◌↔◌, ◌≢◌, inl, inr, Bool, true, ◌&&◌, ◌||◌, some, List, [], ◌∷◌, ◌++◌, arith,
  length, All, Is, all_iff, is_some_and, All-map, bytes, utf8, is_ascii_digit, same_text,
  strip_prefix, split_once, same_text→eq, same_text_self, strip_prefix→append, strip_prefix-append,
  split_once→append, split_once-append, Bool-cases, Option-cases, and_iff, ap, ◌∙◌,
}
use ipa_rs_hetero_cloud.Iam.RoleTrust.{
  name_byte, principal_name, valid_name, valid_account, valid_arn_rest, valid_principal,
}

-- Twelve digits.
abbrev pub Account : List ℕ → Type 0
Account a = (length a ≡ 12) × All (Is is_ascii_digit) a

-- One to 256 bytes, each a letter, a digit or one of `+=,.@_-/`.
abbrev pub Name : List ℕ → Type 0
Name n = (n ≢ []) × (length n ≤ 256) × All (Is name_byte) n

abbrev pub arn : List ℕ
arn = bytes "arn:aws:iam::"

-- What may follow the account of an ARN.
pub data PathText (path : List ℕ) : Type 0 where
  root : path ≡ bytes "root" → PathText path
  user : (n : List ℕ) → Name n → path ≡ bytes "user/" ++ n → PathText path
  role : (n : List ℕ) → Name n → path ≡ bytes "role/" ++ n → PathText path

pub data PrincipalText (v : List ℕ) : Type 0 where
  anyone : v ≡ bytes "*" → PrincipalText v
  account : Account v → PrincipalText v
  named :
      (a path : List ℕ)
      → Account a
      → PathText path
      → v ≡ arn ++ (a ++ b':' ∷ path)
      → PrincipalText v

valid_account_iff : (a : List ℕ) → (valid_account a ≡ true) ↔ Account a
unfolding valid_account
valid_account_iff a = ground (arith, all_iff is_ascii_digit a)

valid_name_iff : (n : List ℕ) → (valid_name n ≡ true) ↔ Name n
unfolding valid_name
valid_name_iff [] = (λ h. cc, λ h. absurd (h.0 refl))
valid_name_iff (b ∷ n) = ground (arith, all_iff name_byte n)

abbrev path_test : List ℕ → Bool
path_test path = same_text path (bytes "root") || is_some_and valid_name (principal_name path)

path→ : (path : List ℕ) → path_test path ≡ true → PathText path
unfolding principal_name
path→ path h = elim (Bool-cases (same_text path (bytes "root"))) [
  | inl is ↦ root (same_text→eq path (bytes "root") is)
  | inr isnt ↦ elim (Option-cases (strip_prefix (bytes "user/") path)) [
    | inr (n, at) ↦
        user n ((valid_name_iff n).0 (ground arith)) (strip_prefix→append (bytes "user/") path at)
    | inl no_user ↦ elim (Option-cases (strip_prefix (bytes "role/") path)) [
      | inr (n, at) ↦
          role n ((valid_name_iff n).0 (ground arith)) (strip_prefix→append (bytes "role/") path at)
      | inl no_role ↦ ground arith
    ]
  ]
]

principal_name-user : (n : List ℕ) → principal_name (bytes "user/" ++ n) ≡ some n
unfolding principal_name utf8
principal_name-user n = refl

principal_name-role : (n : List ℕ) → principal_name (bytes "role/" ++ n) ≡ some n
unfolding principal_name utf8
principal_name-role n = refl

path← : (path : List ℕ) → PathText path → path_test path ≡ true
path← path (root e) = rw (e, same_text_self (bytes "root"))
path← path (user n name e) = rw (e, principal_name-user n) (ground (arith, valid_name_iff n))
path← path (role n name e) = rw (e, principal_name-role n) (ground (arith, valid_name_iff n))

no_colon : (a : List ℕ) → Account a → All (λ c. c ≢ b':') a
no_colon a h = All-map (λ c d. digit_ne c d) a h.1
  where
    digit_ne : (c : ℕ) → Is is_ascii_digit c → c ≢ b':'
    digit_ne c d = ground arith

-- The text behind the prefix of an ARN.
abbrev RestText : List ℕ → Type 0
RestText rest =
    (a : List ℕ) × (path : List ℕ) × Account a × PathText path × (rest ≡ a ++ b':' ∷ path)

rest→ : (rest : List ℕ) → valid_arn_rest rest ≡ true → RestText rest
unfolding valid_arn_rest
rest→ rest h = elim (Option-cases (split_once b':' rest)) [
  | inl none_found ↦ ground arith
  | inr ((a, path), at) ↦
      let tests : (valid_account a && path_test path) ≡ true = ground arith in
      let (digits, follows) = (and_iff (valid_account a) (path_test path)).0 tests in
      (a, path, (valid_account_iff a).0 digits, path→ path follows, split_once→append b':' rest at)
]

rest← : (rest : List ℕ) → RestText rest → valid_arn_rest rest ≡ true
unfolding valid_arn_rest
rest← rest (a, path, digits, p, e) =
    rw (e, split_once-append b':' a path (no_colon a digits), valid_arn_rest)
      (ground (arith, valid_account_iff a, path← path p))

principal→ : (v : List ℕ) → valid_principal v ≡ true → PrincipalText v
unfolding valid_principal
principal→ v h = elim (Bool-cases (same_text v (bytes "*"))) [
  | inl is ↦ anyone (same_text→eq v (bytes "*") is)
  | inr isnt ↦ elim (Bool-cases (valid_account v)) [
    | inl digits ↦ account ((valid_account_iff v).0 digits)
    | inr other ↦ elim (Option-cases (strip_prefix arn v)) [
      | inl no_prefix ↦ ground arith
      | inr (rest, at) ↦
          let (a, path, digits, p, e) = rest→ rest (ground arith) in
          named a path digits p (strip_prefix→append arn v at ∙ ap (λ r. arn ++ r) e)
    ]
  ]
]

principal← : (v : List ℕ) → PrincipalText v → valid_principal v ≡ true
unfolding valid_principal
principal← v (anyone e) = rw (e, same_text_self (bytes "*"))
principal← v (account digits) = ground (arith, valid_account_iff v)
principal← v (named a path digits p e) = ground (
  arith,
  rest← (a ++ b':' ∷ path) (a, path, digits, p, refl),
  strip_prefix-append arn (a ++ b':' ∷ path),
)

-- A principal is accepted exactly if it is `*`, a twelve-digit account, or an IAM ARN of an
-- account's root, of a user or of a role.
pub valid_principal_iff : (v : List ℕ) → (valid_principal v ≡ true) ↔ PrincipalText v
valid_principal_iff v = (principal→ v, principal← v)
