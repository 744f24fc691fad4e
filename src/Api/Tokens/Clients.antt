-- ===== src/Api/Tokens/Clients.antt =====
-- The command line and the API accept the same access tokens.
use ipa_rs_hetero_cloud.Prelude.{
  ◌≡◌, ◌↔◌, refl, sym, ap, subst, ◌∙◌, ℕ, ◌≤◌, true, false, Option, none, some, List, [], ◌∷◌, ◌++◌,
  arith, length, all, all-append, any, ok, chars, strip_prefix, strip_prefix→append,
  strip_prefix-append, get_to, get_from, get_to-append, get_from-append, split_in_two,
  is_whitespace, is_control,
}
use ipa_rs_hetero_cloud.Api.Tokens.{
  url_char, valid_parts, parse_cli_access_token_prefix, valid_access_token,
}
use ipa_rs_hetero_cloud.Api.Tokens.Prefixes.{IsCliToken, parse_cli_access_token_prefix_iff}

url_char_printable :
    (c : ℕ) → url_char c ≡ true → (is_whitespace c ≡ false) × (is_control c ≡ false)
unfolding is_whitespace is_control
url_char_printable c h = ground arith

printable :
    (s : List ℕ)
    → all url_char s ≡ true
    → (any is_whitespace s ≡ false) × (any is_control s ≡ false)
printable [] h = (refl, refl)
printable (c ∷ s) h =
    let (a, b) = url_char_printable c (ground arith) in
    let (d, e) = printable s (ground arith) in (ground arith, ground arith)

token_chars :
    (prefix secret : List ℕ)
    → all url_char (prefix ++ secret) ≡ true
    → all url_char (chars "hcu_" ++ (prefix ++ b'_' ∷ secret)) ≡ true
token_chars prefix secret h =
    ground (arith, all-append url_char prefix secret, all-append url_char prefix (b'_' ∷ secret))

parts_safe :
    (value prefix secret : List ℕ)
    → valid_parts value prefix secret ≡ true
    → (32 ≤ length secret) × (all url_char (prefix ++ secret) ≡ true)
unfolding valid_parts
parts_safe value prefix secret h = ground arith

safe_parts :
    (value prefix secret : List ℕ)
    → length prefix ≡ 16
    → 32 ≤ length secret
    → all url_char (prefix ++ secret) ≡ true
    → all url_char value ≡ true
    → valid_parts value prefix secret ≡ true
unfolding valid_parts
safe_parts value prefix secret size long safe whole =
    let (visible, plain) = printable value whole in ground arith

valid_access_token-IsCliToken :
    (token : List ℕ)
    → valid_access_token token ≡ true
    → (prefix : List ℕ) × (secret : List ℕ) × IsCliToken prefix secret token
unfolding valid_access_token
valid_access_token-IsCliToken token h = by_strip (strip_prefix (chars "hcu_") token) refl
  where
    by_secret :
        (rest prefix more : List ℕ) (o : Option (List ℕ))
        → strip_prefix (chars "hcu_") token ≡ some rest
        → get_to 16 rest ≡ some prefix
        → get_from 16 rest ≡ some more
        → strip_prefix (chars "_") more ≡ o
        → (prefix : List ℕ) × (secret : List ℕ) × IsCliToken prefix secret token
    by_secret rest prefix more none a b c d = absurd (ground arith)
    by_secret rest prefix more (some secret) a b c d =
        let (parts, size) =
          split_in_two 16 rest secret prefix b'_' b
            (c ∙ ap some (strip_prefix→append (chars "_") more d)) in
        let (long, safe) = parts_safe token prefix secret (ground arith) in
        (
          prefix,
          secret,
          (
            strip_prefix→append (chars "hcu_") token a ∙ ap (λ v. chars "hcu_" ++ v) parts,
            size,
            long,
            safe,
          ),
        )

    by_from :
        (rest prefix : List ℕ) (o : Option (List ℕ))
        → strip_prefix (chars "hcu_") token ≡ some rest
        → get_to 16 rest ≡ some prefix
        → get_from 16 rest ≡ o
        → (prefix : List ℕ) × (secret : List ℕ) × IsCliToken prefix secret token
    by_from rest prefix none a b c = absurd (ground arith)
    by_from rest prefix (some more) a b c =
        by_secret rest prefix more (strip_prefix (chars "_") more) a b c refl

    by_to :
        (rest : List ℕ) (o : Option (List ℕ))
        → strip_prefix (chars "hcu_") token ≡ some rest
        → get_to 16 rest ≡ o
        → (prefix : List ℕ) × (secret : List ℕ) × IsCliToken prefix secret token
    by_to rest none a b = absurd (ground arith)
    by_to rest (some prefix) a b = by_from rest prefix (get_from 16 rest) a b refl

    by_strip :
        (o : Option (List ℕ))
        → strip_prefix (chars "hcu_") token ≡ o
        → (prefix : List ℕ) × (secret : List ℕ) × IsCliToken prefix secret token
    by_strip none a = absurd (ground arith)
    by_strip (some rest) a = by_to rest (get_to 16 rest) a refl

IsCliToken-valid_access_token :
    (prefix secret : List ℕ)
    → length prefix ≡ 16
    → 32 ≤ length secret
    → all url_char (prefix ++ secret) ≡ true
    → valid_access_token (chars "hcu_" ++ (prefix ++ b'_' ∷ secret)) ≡ true
unfolding valid_access_token
IsCliToken-valid_access_token prefix secret size long safe =
    let stripped = strip_prefix-append (chars "hcu_") (prefix ++ b'_' ∷ secret) in
    let front : get_to 16 (prefix ++ b'_' ∷ secret) ≡ some prefix =
      subst (λ n. get_to n (prefix ++ b'_' ∷ secret) ≡ some prefix) size
        (get_to-append prefix b'_' secret (omega arith)) in
    let behind : get_from 16 (prefix ++ b'_' ∷ secret) ≡ some (b'_' ∷ secret) =
      subst (λ n. get_from n (prefix ++ b'_' ∷ secret) ≡ some (b'_' ∷ secret)) size
        (get_from-append prefix b'_' secret (omega arith)) in
    let separated = strip_prefix-append (chars "_") secret in
    let passes =
      safe_parts (chars "hcu_" ++ (prefix ++ b'_' ∷ secret)) prefix secret size long safe
        (token_chars prefix secret safe) in
    ground arith

-- The command line keeps an access token exactly if the API finds a prefix in it.
pub valid_access_token_iff :
    (token : List ℕ)
    → (valid_access_token token ≡ true)
      ↔ ((prefix : List ℕ) × (parse_cli_access_token_prefix token ≡ ok prefix))
valid_access_token_iff token = (forward, backward)
  where
    forward :
        valid_access_token token ≡ true
        → ((prefix : List ℕ) × (parse_cli_access_token_prefix token ≡ ok prefix))
    forward h =
        let (prefix, secret, is) = valid_access_token-IsCliToken token h in
        (prefix, (parse_cli_access_token_prefix_iff token prefix).1 (secret, is))

    backward :
        ((prefix : List ℕ) × (parse_cli_access_token_prefix token ≡ ok prefix))
        → valid_access_token token ≡ true
    backward (prefix, h) =
        let (secret, is) = (parse_cli_access_token_prefix_iff token prefix).0 h in
        subst (λ t. valid_access_token t ≡ true) (sym is.0)
          (IsCliToken-valid_access_token prefix secret is.1 is.2 is.3)
