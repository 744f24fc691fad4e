-- ===== src/Api/Tokens/Prefixes.antt =====
-- The texts that the parsers of tokens accept, and the prefixes that they find.
use ipa_rs_hetero_cloud.Prelude.{
  ◌≡◌, ◌≢◌, ◌↔◌, refl, sym, ap, subst, ◌∙◌, ℕ, ◌≤◌, Bool, true, false, not, ◌||◌, some, List, ◌∷◌,
  ◌++◌, arith, length, All, all, ltb, ◌==◌, ok, bind_ok, then_ok, ok_inj, ok_or_ok, reject_if_ok,
  chars, same_text, same_text→eq, strip_prefix→append, strip_prefix-append, split_once→append,
  split_once-append, split_once-plain, get_to, get_from, get_to-append, get_from-append,
  split_in_two,
}
use ipa_rs_hetero_cloud.Api.Tokens.{
  unauthorized, url_char, parse_cli_access_token_prefix, parse_api_key_prefix,
}

abbrev pub IsCliToken : List ℕ → List ℕ → List ℕ → Type 0
IsCliToken prefix secret token =
    (token ≡ chars "hcu_" ++ (prefix ++ b'_' ∷ secret))
    × (length prefix ≡ 16)
    × (32 ≤ length secret)
    × (all url_char (prefix ++ secret) ≡ true)

cli_tests :
    (prefix secret : List ℕ)
    → (ltb (length secret) 32 || not (all url_char (prefix ++ secret))) ≡ false
    → (32 ≤ length secret) × (all url_char (prefix ++ secret) ≡ true)
cli_tests prefix secret h = ground arith

cli_accepts :
    (prefix secret : List ℕ)
    → length prefix ≡ 16
    → 32 ≤ length secret
    → all url_char (prefix ++ secret) ≡ true
    → parse_cli_access_token_prefix (chars "hcu_" ++ (prefix ++ b'_' ∷ secret)) ≡ ok prefix
unfolding parse_cli_access_token_prefix
cli_accepts prefix secret size long safe =
    let stripped = strip_prefix-append (chars "hcu_") (prefix ++ b'_' ∷ secret) in
    let front : get_to 16 (prefix ++ b'_' ∷ secret) ≡ some prefix =
      subst (λ n. get_to n (prefix ++ b'_' ∷ secret) ≡ some prefix) size
        (get_to-append prefix b'_' secret (omega arith)) in
    let behind : get_from 16 (prefix ++ b'_' ∷ secret) ≡ some (b'_' ∷ secret) =
      subst (λ n. get_from n (prefix ++ b'_' ∷ secret) ≡ some (b'_' ∷ secret)) size
        (get_from-append prefix b'_' secret (omega arith)) in
    let separated = strip_prefix-append (chars "_") secret in ground arith

-- The parser of the command line's tokens accepts exactly `hcu_`, a prefix of 16 characters, `_` and
-- a secret of at least 32, all of them letters, digits, `-` and `_`, and answers with the prefix.
pub parse_cli_access_token_prefix_iff :
    (token prefix : List ℕ)
    → (parse_cli_access_token_prefix token ≡ ok prefix)
      ↔ ((secret : List ℕ) × IsCliToken prefix secret token)
unfolding parse_cli_access_token_prefix
parse_cli_access_token_prefix_iff token prefix = (forward, backward)
  where
    forward :
        parse_cli_access_token_prefix token ≡ ok prefix
        → ((secret : List ℕ) × IsCliToken prefix secret token)
    forward h =
        let (value, a, h1) = bind_ok _ _ prefix h in
        let (before, b, h2) = bind_ok _ _ prefix h1 in
        let (rest, c, h3) = bind_ok _ _ prefix h2 in
        let (secret, d, h4) = bind_ok _ _ prefix h3 in
        let (e, h5) = then_ok _ _ prefix h4 in
        let whole = strip_prefix→append (chars "hcu_") token (ok_or_ok _ unauthorized _ a) in
        let more = strip_prefix→append (chars "_") rest (ok_or_ok _ unauthorized _ d) in
        let (parts, size) =
          split_in_two 16 value secret before b'_' (ok_or_ok _ unauthorized _ b)
            (ok_or_ok _ unauthorized _ c ∙ ap some more) in
        let same : before ≡ prefix = ok_inj h5 in
        let (long, safe) = cli_tests before secret (reject_if_ok _ unauthorized e) in
        (
          secret,
          (
            whole ∙ ap (λ v. chars "hcu_" ++ v) (parts ∙ ap (λ p. p ++ b'_' ∷ secret) same),
            ap length (sym same) ∙ size,
            long,
            ap (λ p. all url_char (p ++ secret)) (sym same) ∙ safe,
          ),
        )

    backward :
        ((secret : List ℕ) × IsCliToken prefix secret token)
        → parse_cli_access_token_prefix token ≡ ok prefix
    backward (secret, (whole, size, long, safe)) =
        subst (λ t. parse_cli_access_token_prefix t ≡ ok prefix) (sym whole)
          (cli_accepts prefix secret size long safe)

abbrev pub IsApiKey : List ℕ → List ℕ → List ℕ → Type 0
IsApiKey prefix secret token =
    (token ≡ chars "hc_" ++ (prefix ++ b'_' ∷ secret))
    × All (λ c. c ≢ b'_') prefix
    × (length prefix ≡ 16)
    × (32 ≤ length secret)

key_tests :
    (prefix secret : List ℕ)
    → (not (length prefix == 16) || ltb (length secret) 32) ≡ false
    → (length prefix ≡ 16) × (32 ≤ length secret)
key_tests prefix secret h = ground arith

not-false : (b : Bool) → not b ≡ false → b ≡ true
not-false true h = refl
not-false false h = cc

api_key_accepts :
    (prefix secret : List ℕ)
    → All (λ c. c ≢ b'_') prefix
    → length prefix ≡ 16
    → 32 ≤ length secret
    → parse_api_key_prefix (chars "hc_" ++ (prefix ++ b'_' ∷ secret)) ≡ ok prefix
unfolding parse_api_key_prefix
api_key_accepts prefix secret plain size long =
    let first = split_once-append b'_' (chars "hc") (prefix ++ b'_' ∷ secret) (omega arith) in
    let second = split_once-append b'_' prefix secret plain in ground arith

-- The parser of API keys accepts exactly `hc_`, a prefix of 16 bytes without `_`, `_` and a secret of
-- at least 32 bytes, and answers with the prefix.
pub parse_api_key_prefix_iff :
    (token prefix : List ℕ)
    → (parse_api_key_prefix token ≡ ok prefix) ↔ ((secret : List ℕ) × IsApiKey prefix secret token)
unfolding parse_api_key_prefix
parse_api_key_prefix_iff token prefix = (forward, backward)
  where
    forward :
        parse_api_key_prefix token ≡ ok prefix → ((secret : List ℕ) × IsApiKey prefix secret token)
    forward h =
        let ((first, others), a, h1) = bind_ok _ _ prefix h in
        let (b, h2) = then_ok _ _ prefix h1 in
        let ((before, secret), c, h3) = bind_ok _ _ prefix h2 in
        let (d, h4) = then_ok _ _ prefix h3 in
        let whole = split_once→append b'_' token (ok_or_ok _ unauthorized _ a) in
        let more = split_once→append b'_' others (ok_or_ok _ unauthorized _ c) in
        let plain = split_once-plain b'_' others (ok_or_ok _ unauthorized _ c) in
        let hc =
          same_text→eq first (chars "hc")
            (not-false (same_text first (chars "hc")) (reject_if_ok _ unauthorized b)) in
        let same : before ≡ prefix = ok_inj h4 in
        let (size, long) = key_tests before secret (reject_if_ok _ unauthorized d) in
        (
          secret,
          (
            whole
                ∙ (ap (λ a. a ++ b'_' ∷ others) hc
                    ∙ ap (λ v. chars "hc_" ++ v) (more ∙ ap (λ p. p ++ b'_' ∷ secret) same)),
            subst (All (λ c. c ≢ b'_')) same plain,
            ap length (sym same) ∙ size,
            long,
          ),
        )

    backward :
        ((secret : List ℕ) × IsApiKey prefix secret token) → parse_api_key_prefix token ≡ ok prefix
    backward (secret, (whole, plain, size, long)) =
        subst (λ t. parse_api_key_prefix t ≡ ok prefix) (sym whole)
          (api_key_accepts prefix secret plain size long)
