-- ===== src/Api/Codes/Normal.antt =====
-- The normal form of a user code.
use ipa_rs_hetero_cloud.Prelude.{
  ◌≡◌, sym, ap, subst, ◌∙◌, ℕ, true, List, ◌++◌, map, arith, length, all, all-append, all-take,
  filter, take, ltb, ok, then_ok, ok_inj, reject_if_ok, encode, encode-ascii, to_ascii_uppercase,
  is_ascii_alphanumeric,
}
use ipa_rs_hetero_cloud.Api.Codes.{
  internal, invalid_code, generate_cli_user_code, code_characters, normalize_cli_user_code,
}
use ipa_rs_hetero_cloud.Api.Codes.Characters.{
  code_char, IsUserCode, all-implied, code_char_facts, grouped_parts, characters_of_code,
  three_groups, upper_code, grouped-IsUserCode, ascii_length, normal_tests, characters_code,
  all-filter, upper_alnum, exactly_twelve,
}

normalize_code : (code : List ℕ) → IsUserCode code → normalize_cli_user_code code ≡ ok code
unfolding normalize_cli_user_code
normalize_code code (a, b, c, whole, la, lb, lc, ha, hb, hc) =
    subst (λ t. normalize_cli_user_code t ≡ ok t) (sym whole)
      (let characters = characters_of_code a b c ha hb hc in
        let capitals : all code_char (a ++ (b ++ c)) ≡ true =
          ground (arith, all-append code_char a (b ++ c), all-append code_char b c) in
        let alnum =
          all-implied code_char is_ascii_alphanumeric (λ x h. (code_char_facts x h).2)
            (a ++ (b ++ c)) capitals in
        let ascii = encode-ascii (a ++ (b ++ c)) (
          all-implied code_char (λ x. ltb x 0x80) (λ x h. (code_char_facts x h).3) (a ++ (b ++ c))
            capitals) in
        let size : length (encode (a ++ (b ++ c))) ≡ 12 =
          ap length ascii ∙ three_groups a b c la lb lc in
        let form = grouped_parts a b c la lb lc in rw characters (rw (size, alnum) (ap ok form)))

-- What the normalisation of a typed code yields consists of three groups of four capitals and digits
-- with dashes between them, and is its own normal form.
pub normalize_cli_user_code-normalize_cli_user_code :
    (value code : List ℕ)
    → normalize_cli_user_code value ≡ ok code
    → IsUserCode code × (normalize_cli_user_code code ≡ ok code)
unfolding normalize_cli_user_code
normalize_cli_user_code-normalize_cli_user_code value code h =
    let (tests, form) = then_ok _ _ code h in
    let (size, alnum) =
      normal_tests (length (encode (code_characters value)))
        (all is_ascii_alphanumeric (code_characters value)) (reject_if_ok _ invalid_code tests) in
    let is = subst IsUserCode (ok_inj form) (
      grouped-IsUserCode (code_characters value)
        (sym (ascii_length (code_characters value) alnum) ∙ size) (characters_code value alnum)) in
    (is, normalize_code code is)

-- A code that the API has generated is in normal form, whatever the token that it was cut from.
pub normalize_cli_user_code-generate_cli_user_code :
    (secret code : List ℕ)
    → generate_cli_user_code secret ≡ ok code
    → normalize_cli_user_code code ≡ ok code
unfolding generate_cli_user_code
normalize_cli_user_code-generate_cli_user_code secret code h =
    let (tests, form) = then_ok _ _ code h in
    let alnum = upper_alnum (take 12 (filter is_ascii_alphanumeric secret)) (
      all-take is_ascii_alphanumeric 12 (filter is_ascii_alphanumeric secret)
        (all-filter secret)) in
    let size =
      sym (
        ascii_length (map to_ascii_uppercase (take 12 (filter is_ascii_alphanumeric secret))) alnum)
      ∙ exactly_twelve
          (length (encode (map to_ascii_uppercase (take 12 (filter is_ascii_alphanumeric secret)))))
          (reject_if_ok _ internal tests) in
    let is =
      grouped-IsUserCode (map to_ascii_uppercase (take 12 (filter is_ascii_alphanumeric secret)))
        size (upper_code (take 12 (filter is_ascii_alphanumeric secret)) alnum) in
    normalize_code code (subst IsUserCode (ok_inj form) is)
