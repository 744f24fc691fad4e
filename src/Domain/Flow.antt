-- ===== src/Domain/Flow.antt =====
-- `FlowSpec` of crates/heterocloud-domain/src/lib.rs and its test in
-- crates/heterocloud-api/src/routes.rs: rooms and their rate limit.
use ipa_rs_hetero_cloud.Prelude.{
  ℕ, String, Bool, not, ◌||◌, ltb, ◌==◌, within, is_empty, Result, ◌>>◌, reject_if, chars, byte_len,
  trim, utf8,
}

pub record FlowRateLimit : Type 0 where
  pub requests_per_second : ℕ
  pub burst : ℕ

-- `metadata_is_object` is the test of `metadata` by serde_json.
pub record FlowSpec : Type 0 where
  pub region : String
  pub max_participants : ℕ
  pub max_rooms : ℕ
  pub rate_limit : FlowRateLimit
  pub metadata_is_object : Bool

pub data FlowError : Type 0 where
  max_rooms max_participants requests_per_second burst region metadata : FlowError

abbrev pub max_flow_rooms : ℕ
max_flow_rooms = 1000000

unfoldable pub validate_flow_spec : FlowSpec → Result FlowError (Unit {0})
unfolding trim utf8
validate_flow_spec spec = do
  reject_if (not (within 1 max_flow_rooms spec.max_rooms)) max_rooms
  reject_if (spec.max_participants == 0 || ltb 100000 spec.max_participants) max_participants
  reject_if (not (within 1 1000 spec.rate_limit.requests_per_second)) requests_per_second
  reject_if (not (within 1 5000 spec.rate_limit.burst)) burst
  reject_if (is_empty (trim (chars spec.region)) || ltb 64 (byte_len spec.region)) region
  reject_if (not spec.metadata_is_object) metadata
