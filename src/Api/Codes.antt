-- ===== src/Api/Codes.antt =====
-- The codes of the command line's login in crates/heterocloud-api/src/routes.rs. A text is the list of
-- its chars.
pub mod Characters
pub mod Normal
use ipa_rs_hetero_cloud.Prelude.{
  ℕ, ◌+◌, Bool, true, false, not, ◌&&◌, ◌||◌, Option, none, some, List, [], ◌∷◌, ◌++◌, map, length,
  all, filter, take, drop, if◌then◌else◌, ltb, leb, ◌==◌, is_some_and, Result, ok, err, ◌>>=◌, ◌>>◌,
  reject_if, chars, encode, utf8, strip_prefix, trim, to_ascii_uppercase, is_ascii_alphanumeric,
}

pub data CodeError : Type 0 where
  internal invalid_code : CodeError

-- Three groups of four; the slices are of bytes, and both callers have ASCII texts of 12 bytes.
unfoldable pub grouped : List ℕ → List ℕ
grouped cs = take 4 cs ++ (b'-' ∷ (take 4 (drop 4 cs) ++ (b'-' ∷ take 4 (drop 8 cs))))

-- `generate_cli_user_code` from the text of a new token.
unfoldable pub generate_cli_user_code : List ℕ → Result CodeError (List ℕ)
unfolding grouped to_ascii_uppercase utf8
generate_cli_user_code secret =
    let characters = map to_ascii_uppercase (take 12 (filter is_ascii_alphanumeric secret)) in
    do reject_if (not (length (encode characters) == 12)) internal; ok (grouped characters)

-- What is left of a code that a user has typed.
unfoldable pub code_characters : List ℕ → List ℕ
unfolding to_ascii_uppercase trim
code_characters value = map to_ascii_uppercase (filter (λ c. not (c == b'-')) (trim value))

unfoldable pub normalize_cli_user_code : List ℕ → Result CodeError (List ℕ)
unfolding grouped code_characters utf8
normalize_cli_user_code value = do
  reject_if
      (not (length (encode (code_characters value)) == 12)
        || not (all is_ascii_alphanumeric (code_characters value)))
      invalid_code
  ok (grouped (code_characters value))

-- `valid_cli_device_code`, on the bytes of the code.
unfoldable pub valid_cli_device_code : List ℕ → Bool
unfolding strip_prefix
valid_cli_device_code value =
    is_some_and
      (λ secret.
        leb 32 (length secret)
        && all (λ c. is_ascii_alphanumeric c || (c == b'-' || c == b'_')) secret)
      (strip_prefix (chars "hcd_") value)
