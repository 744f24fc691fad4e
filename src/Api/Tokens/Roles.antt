-- ===== src/Api/Tokens/Roles.antt =====
-- The names of roles that `parse_iam_role_arn` reads.
use ipa_rs_hetero_cloud.Prelude.{
  ◌≡◌, ◌≢◌, ◌↔◌, refl, sym, ap, subst, ◌∙◌, ℕ, true, false, not, ◌||◌, Option, none, some, List, [],
  ◌∷◌, ◌++◌, arith, length, All, all, ◌==◌, ok, bind_ok, then_ok, ok_inj, ok_or_ok, reject_if_ok,
  chars, strip_prefix, strip_prefix→append, strip_prefix-append, strip_differs, is_ascii_digit,
}
use ipa_rs_hetero_cloud.Api.Tokens.{
  invalid_role_arn, validate_iam_role_name, split_at_text, parse_iam_role_arn,
}

split_at_text→append :
    (sep s : List ℕ) {a b : List ℕ} → split_at_text sep s ≡ some (a, b) → s ≡ a ++ (sep ++ b)
unfolding split_at_text
split_at_text→append sep [] h = absurd (ground arith)
split_at_text→append sep (c ∷ s) {a} {b} h =
    by_parts (strip_prefix sep (c ∷ s)) (split_at_text sep s) refl refl
      (λ a' b' e. split_at_text→append sep s {a = a'} {b = b'} e)
  where
    by_parts :
        (here : Option (List ℕ)) (later : Option (List ℕ × List ℕ))
        → strip_prefix sep (c ∷ s) ≡ here
        → split_at_text sep s ≡ later
        → ((a' b' : List ℕ) → split_at_text sep s ≡ some (a', b') → s ≡ a' ++ (sep ++ b'))
        → c ∷ s ≡ a ++ (sep ++ b)
    by_parts (some rest) later e f ih =
        let whole = strip_prefix→append sep (c ∷ s) e in
        let nothing : [] ≡ a = ground arith in
        let behind : rest ≡ b = ground arith in
        whole ∙ (ap (λ r. sep ++ r) behind ∙ ap (λ front. front ++ (sep ++ b)) nothing)
    by_parts none none e f ih = absurd (ground arith)
    by_parts none (some (a', b')) e f ih =
        let tail = ih a' b' f in
        let longer : c ∷ a' ≡ a = ground arith in
        let behind : b' ≡ b = ground arith in
        ap (λ r. c ∷ r) tail
        ∙ (ap (λ r. (c ∷ a') ++ (sep ++ r)) behind ∙ ap (λ front. front ++ (sep ++ b)) longer)

split_at_text-append :
    (first : ℕ) (sep a b : List ℕ)
    → All (λ c. c ≢ first) a
    → split_at_text (first ∷ sep) (a ++ ((first ∷ sep) ++ b)) ≡ some (a, b)
unfolding split_at_text
split_at_text-append first sep [] b h =
    let here = strip_prefix-append (first ∷ sep) b in ground arith
split_at_text-append first sep (c ∷ a) b h =
    let later = split_at_text-append first sep a b h.1 in
    let apart = strip_differs first c sep (a ++ ((first ∷ sep) ++ b)) h.0 in ground arith

digits_plain : (s : List ℕ) → all is_ascii_digit s ≡ true → All (λ c. c ≢ b':') s
digits_plain [] h = tt
digits_plain (c ∷ s) h = (ground arith, digits_plain s (ground arith))

account_tests :
    (account : List ℕ)
    → (not (length account == 12) || not (all is_ascii_digit account)) ≡ false
    → (length account ≡ 12) × (all is_ascii_digit account ≡ true)
account_tests account h = ground arith

abbrev pub IsRoleArn : List ℕ → List ℕ → List ℕ → Type 0
IsRoleArn account name arn =
    (arn ≡ chars "arn:aws:iam::" ++ (account ++ (chars ":role/" ++ name)))
    × (length account ≡ 12)
    × (all is_ascii_digit account ≡ true)
    × (validate_iam_role_name name ≡ ok tt)

arn_accepts :
    (account name : List ℕ)
    → length account ≡ 12
    → all is_ascii_digit account ≡ true
    → validate_iam_role_name name ≡ ok tt
    → parse_iam_role_arn (chars "arn:aws:iam::" ++ (account ++ (chars ":role/" ++ name)))
      ≡ ok (account, name)
unfolding parse_iam_role_arn
arn_accepts account name size digits valid =
    let stripped =
      strip_prefix-append (chars "arn:aws:iam::") (account ++ (chars ":role/" ++ name)) in
    let separated =
      split_at_text-append b':' (chars "role/") account name (digits_plain account digits) in
    ground arith

-- The parser of role names accepts exactly `arn:aws:iam::`, 12 digits, `:role/` and a valid role name,
-- and answers with the account and the name.
pub parse_iam_role_arn_iff :
    (arn account name : List ℕ)
    → (parse_iam_role_arn arn ≡ ok (account, name)) ↔ IsRoleArn account name arn
unfolding parse_iam_role_arn
parse_iam_role_arn_iff arn account name = (forward, backward)
  where
    forward : parse_iam_role_arn arn ≡ ok (account, name) → IsRoleArn account name arn
    forward h =
        let (rest, a, h1) = bind_ok _ _ (account, name) h in
        let ((number, role), b, h2) = bind_ok _ _ (account, name) h1 in
        let (c, h3) = then_ok _ _ (account, name) h2 in
        let (d, h4) = then_ok _ _ (account, name) h3 in
        let whole =
          strip_prefix→append (chars "arn:aws:iam::") arn (ok_or_ok _ invalid_role_arn _ a) in
        let more = split_at_text→append (chars ":role/") rest (ok_or_ok _ invalid_role_arn _ b) in
        let (size, digits) = account_tests number (reject_if_ok _ invalid_role_arn c) in
        let is : IsRoleArn number role arn =
          (whole ∙ ap (λ v. chars "arn:aws:iam::" ++ v) more, size, digits, d) in
        subst (λ (x : List ℕ × List ℕ). IsRoleArn x.0 x.1 arn) (ok_inj h4) is

    backward : IsRoleArn account name arn → parse_iam_role_arn arn ≡ ok (account, name)
    backward (whole, size, digits, valid) =
        subst (λ t. parse_iam_role_arn t ≡ ok (account, name)) (sym whole)
          (arn_accepts account name size digits valid)
