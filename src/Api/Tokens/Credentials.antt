-- ===== src/Api/Tokens/Credentials.antt =====
-- Which developer credentials the API reads: `parse_flow_developer_credential_prefix`.
use ipa_rs_hetero_cloud.Prelude.{
  ◌≡◌, ◌≢◌, ◌↔◌, sym, ap, subst, ◌∙◌, ℕ, ◌≤◌, true, false, not, ◌||◌, some, List, [], ◌∷◌, ◌++◌,
  arith, length, All, all, take, ◌==◌, ok, bind_ok, then_ok, ok_inj, ok_or_ok, reject_if_ok, chars,
  strip_prefix→append, strip_prefix-append, split_once→append, split_once-append, all-take, get_to,
  get_to-append, length-take,
}
use ipa_rs_hetero_cloud.Api.Tokens.{
  unauthorized, url_char, hex_char, fragment_length, secret_length,
  parse_flow_developer_credential_prefix, generate_flow_developer_credential,
}

abbrev pub IsFlowCredential : List ℕ → List ℕ → List ℕ → Type 0
IsFlowCredential fragment secret token =
    (token ≡ (chars "hcf_" ++ fragment) ++ b'_' ∷ secret)
    × (length fragment ≡ 16)
    × (all hex_char fragment ≡ true)
    × (length secret ≡ 43)
    × (all url_char secret ≡ true)

no_separator : (s : List ℕ) → all hex_char s ≡ true → All (λ c. c ≢ b'_') s
no_separator [] h = tt
no_separator (c ∷ s) h = (ground arith, no_separator s (ground arith))

flow_tests :
    (fragment secret : List ℕ)
    → (not (length fragment == fragment_length)
        || not (all hex_char fragment)
        || not (length secret == secret_length)
        || not (all url_char secret))
      ≡ false
    → (length fragment ≡ 16)
      × (all hex_char fragment ≡ true)
      × (length secret ≡ 43)
      × (all url_char secret ≡ true)
flow_tests fragment secret h = ground arith

flow_accepts :
    (fragment secret : List ℕ)
    → length fragment ≡ 16
    → all hex_char fragment ≡ true
    → length secret ≡ 43
    → all url_char secret ≡ true
    → parse_flow_developer_credential_prefix ((chars "hcf_" ++ fragment) ++ b'_' ∷ secret)
      ≡ ok (chars "hcf_" ++ fragment)
unfolding parse_flow_developer_credential_prefix
flow_accepts fragment secret size hex long safe =
    let stripped = strip_prefix-append (chars "hcf_") (fragment ++ b'_' ∷ secret) in
    let separated = split_once-append b'_' fragment secret (no_separator fragment hex) in
    let twenty : length (chars "hcf_" ++ fragment) ≡ 20 = omega arith in
    let front : get_to 20 ((chars "hcf_" ++ fragment) ++ b'_' ∷ secret)
        ≡ some (chars "hcf_" ++ fragment) =
      subst
        (λ n.
          get_to n ((chars "hcf_" ++ fragment) ++ b'_' ∷ secret) ≡ some (chars "hcf_" ++ fragment))
        twenty (get_to-append (chars "hcf_" ++ fragment) b'_' secret (omega arith)) in
    ground arith

-- The parser of developer credentials accepts exactly `hcf_`, 16 lowercase hexadecimal digits, `_` and
-- 43 letters, digits, `-` and `_`, and answers with what stands before the second `_`.
pub parse_flow_developer_credential_prefix_iff :
    (token prefix : List ℕ)
    → (parse_flow_developer_credential_prefix token ≡ ok prefix) ↔ (
        (fragment : List ℕ) × (secret : List ℕ) × (prefix ≡ chars "hcf_" ++ fragment)
        × IsFlowCredential fragment secret token)
unfolding parse_flow_developer_credential_prefix
parse_flow_developer_credential_prefix_iff token prefix = (forward, backward)
  where
    forward :
        parse_flow_developer_credential_prefix token ≡ ok prefix
        → ((fragment : List ℕ) × (secret : List ℕ) × (prefix ≡ chars "hcf_" ++ fragment)
            × IsFlowCredential fragment secret token)
    forward h =
        let (rest, a, h1) = bind_ok _ _ prefix h in
        let ((fragment, secret), b, h2) = bind_ok _ _ prefix h1 in
        let (c, h3) = then_ok _ _ prefix h2 in
        let whole = strip_prefix→append (chars "hcf_") token (ok_or_ok _ unauthorized _ a) in
        let more = split_once→append b'_' rest (ok_or_ok _ unauthorized _ b) in
        let (size, hex, long, safe) = flow_tests fragment secret (reject_if_ok _ unauthorized c) in
        let is : IsFlowCredential fragment secret token =
          (whole ∙ ap (λ v. chars "hcf_" ++ v) more, size, hex, long, safe) in
        let found = flow_accepts fragment secret is.1 is.2 is.3 is.4 in
        let again : parse_flow_developer_credential_prefix token ≡ ok (chars "hcf_" ++ fragment) =
          subst (λ t. parse_flow_developer_credential_prefix t ≡ ok (chars "hcf_" ++ fragment))
            (sym is.0) found in
        (fragment, secret, ok_inj (sym h ∙ again), is)

    backward :
        ((fragment : List ℕ) × (secret : List ℕ) × (prefix ≡ chars "hcf_" ++ fragment)
          × IsFlowCredential fragment secret token)
        → parse_flow_developer_credential_prefix token ≡ ok prefix
    backward (fragment, secret, named, (whole, size, hex, long, safe)) =
        subst (λ t. parse_flow_developer_credential_prefix t ≡ ok prefix) (sym whole)
          (flow_accepts fragment secret size hex long safe ∙ ap ok (sym named))

-- A new developer credential is read back, if its Uuid has at least 16 characters, all lowercase
-- hexadecimal digits, and its secret 43 letters, digits, `-` and `_`: the parser finds the prefix that
-- is stored with it.
pub generate_flow_developer_credential_lem :
    (uuid secret : List ℕ)
    → 16 ≤ length uuid
    → all hex_char uuid ≡ true
    → length secret ≡ 43
    → all url_char secret ≡ true
    → parse_flow_developer_credential_prefix (generate_flow_developer_credential uuid secret).1
      ≡ ok (generate_flow_developer_credential uuid secret).0
unfolding generate_flow_developer_credential
generate_flow_developer_credential_lem uuid secret long hex size safe =
    flow_accepts (take 16 uuid) secret (length-take 16 uuid long) (all-take hex_char 16 uuid hex)
      size safe
