-- ===== src/Domain/Syouyu.antt =====
-- `SyouyuSpec` of crates/heterocloud-domain/src/lib.rs: a bucket and its quotas.
use ipa_rs_hetero_cloud.Prelude.{
  ℕ, ◌+◌, ◌-◌, ◌*◌, String, Bool, false, not, ◌&&◌, ◌||◌, Option, none, some, List, [], ◌∷◌, length,
  all, any, get_first?, get_last?, is_some_and, if◌then◌else◌, ltb, leb, ◌==◌, within, Result, err,
  ◌>>◌, reject_if, str_eq, bytes, is_ascii_digit, is_ascii_lowercase, is_ascii_alphanumeric, utf8,
}
use ipa_rs_hetero_cloud.Domain.Quota.{
  min_syouyu_quota_bytes, max_syouyu_quota_bytes, max_syouyu_quota_objects,
}

-- `metadata` is the length of its serialization, and `none` where serde_json has an error.
pub record SyouyuSpec : Type 0 where
  pub region : String
  pub bucket_name : String
  pub quota_bytes : ℕ
  pub quota_objects : ℕ
  pub metadata : Option ℕ

pub data SyouyuError : Type 0 where
  region bucket_name quota_bytes quota_objects invalid_metadata long_metadata : SyouyuError

-- `str::contains("..")`
unfoldable pub has_two_dots : List ℕ → Bool
has_two_dots [] = false
has_two_dots (a ∷ []) = false
has_two_dots (a ∷ b ∷ s) = (a == b'.' && b == b'.') || has_two_dots (b ∷ s)

-- `str::split` at a byte.
unfoldable pub split_all : ℕ → List ℕ → List (List ℕ)
split_all sep [] = [] ∷ []
split_all sep (c ∷ s) =
    let rest = split_all sep s in
    if c == sep
    then [] ∷ rest
    else elim rest [ [] ↦ (c ∷ []) ∷ [] | first ∷ others ↦ (c ∷ first) ∷ others ]

abbrev pub decimal : ℕ → List ℕ → ℕ
decimal n [] = n
decimal n (d ∷ s) = decimal (n * 10 + (d - b'0')) s

-- One to three digits without a leading zero, at most 255.
unfoldable pub octet : List ℕ → Bool
octet s =
    within 1 3 (length s)
    && all is_ascii_digit s
    && leb (decimal 0 s) 255
    && (length s == 1 || not (is_some_and (λ d. d == b'0') (get_first? s)))

-- `parse::<Ipv4Addr>().is_ok()`: four octets with dots between them.
unfoldable pub is_ipv4 : List ℕ → Bool
unfolding split_all octet
is_ipv4 s = length (split_all b'.' s) == 4 && all octet (split_all b'.' s)

abbrev pub bucket_byte : ℕ → Bool
bucket_byte b = is_ascii_lowercase b || is_ascii_digit b || (b == b'-' || b == b'.')

-- The test of `validate_s3_bucket_name` on the bytes of a name. A name with a colon fails the test
-- of its bytes, so that no IPv6 address is left for `IpAddr`.
unfoldable pub bad_bucket_name : List ℕ → Bool
unfolding has_two_dots is_ipv4
bad_bucket_name name =
    not (within 3 63 (length name))
    || (not (is_some_and is_ascii_alphanumeric (get_first? name))
        || (not (is_some_and is_ascii_alphanumeric (get_last? name))
            || (has_two_dots name || (any (λ b. not (bucket_byte b)) name || is_ipv4 name))))

unfoldable pub validate_s3_bucket_name : String → Result SyouyuError (Unit {0})
unfolding bad_bucket_name utf8
validate_s3_bucket_name name = reject_if (bad_bucket_name (bytes name)) bucket_name

-- The last two steps of `SyouyuSpec::validate`.
unfoldable pub check_metadata : Option ℕ → Result SyouyuError (Unit {0})
check_metadata none = err invalid_metadata
check_metadata (some size) = reject_if (ltb (64 * 1024) size) long_metadata

unfoldable pub validate : SyouyuSpec → Result SyouyuError (Unit {0})
unfolding validate_s3_bucket_name check_metadata
validate spec = do
  reject_if (not (str_eq spec.region "heteronet-global")) region
  validate_s3_bucket_name spec.bucket_name
  reject_if (not (within min_syouyu_quota_bytes max_syouyu_quota_bytes spec.quota_bytes))
      quota_bytes
  reject_if (not (within 1 max_syouyu_quota_objects spec.quota_objects)) quota_objects
  check_metadata spec.metadata
