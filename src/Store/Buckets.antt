-- ===== src/Store/Buckets.antt =====
-- What Syouyu buckets reserve for a tenant: `prepare_syouyu_spec` of
-- crates/heterocloud-store/src/lib.rs, which runs under a lock on the names of all buckets.
pub mod Exact
pub mod Steps
use ipa_rs_hetero_cloud.Prelude.{
  ℕ, ◌+◌, String, Bool, true, false, not, ◌&&◌, ◌||◌, Option, none, some, List, [], ◌∷◌,
  if◌then◌else◌, ltb, ◌==◌, is_some_and, Result, ok, err, ◌>>=◌, ◌>>◌, reject_if, map_err, str_eq,
}
use ipa_rs_hetero_cloud.Domain.Vpc.{Uuid}
use ipa_rs_hetero_cloud.Domain.Quota.{SyouyuQuotaLimits}
use ipa_rs_hetero_cloud.Domain.Syouyu.{SyouyuSpec, SyouyuError, validate}
use ipa_rs_hetero_cloud.Store.Rooms.{saturating_add, is_left_out}

-- A row of `service_instances` with the provider `syouyu`.
pub record BucketRow : Type 0 where
  pub id : Uuid
  pub organization_id : Uuid
  pub is_deleting : Bool
  pub spec : SyouyuSpec

-- `RequestRejected` by the limit that its message names, and `Conflict`.
pub data BucketRejection : Type 0 where
  invalid : SyouyuError → BucketRejection
  bytes_per_bucket objects_per_bucket name_taken immutable buckets total_bytes : BucketRejection

pub record BucketUsage : Type 0 where
  pub buckets : ℕ
  pub bytes : ℕ

-- `SELECT id ... WHERE spec->>'bucket_name' = $1 LIMIT 1`, over the rows of all tenants.
unfoldable pub name_owner : String → List BucketRow → Option Uuid
name_owner name [] = none
name_owner name (row ∷ rest) =
    let later = name_owner name rest in
    if str_eq row.spec.bucket_name name then some row.id else later

-- `excluded_service_id.is_none_or(|excluded| excluded.0 != id)`
abbrev pub is_foreign : Option Uuid → Uuid → Bool
is_foreign excluded id = not (is_left_out excluded id)

-- `WHERE organization_id = $1 AND state <> 'deleting'`
abbrev pub is_live : Uuid → BucketRow → Bool
is_live organization_id row = row.organization_id == organization_id && not row.is_deleting

unfoldable pub changes_name : SyouyuSpec → SyouyuSpec → Bool
changes_name requested stored =
    not (str_eq requested.bucket_name stored.bucket_name)
    || not (str_eq requested.region stored.region)

unfoldable pub add_bucket : Uuid → Option Uuid → BucketRow → BucketUsage → BucketUsage
add_bucket organization_id excluded row usage =
    if is_live organization_id row && not (is_left_out excluded row.id)
    then record {
      buckets = saturating_add usage.buckets 1;
      bytes = saturating_add usage.bytes row.spec.quota_bytes;
    }
    else usage

-- The loop over the rows: the service itself keeps its name, and the others are added up.
unfoldable pub bucket_usage :
    Uuid
    → Option Uuid
    → SyouyuSpec
    → BucketUsage
    → List BucketRow
    → Result BucketRejection BucketUsage
unfolding changes_name add_bucket
bucket_usage organization_id excluded requested usage [] = ok usage
bucket_usage organization_id excluded requested usage (row ∷ rest) =
    reject_if
      (is_live organization_id row
        && is_left_out excluded row.id
        && changes_name requested row.spec)
      immutable
    >> bucket_usage organization_id excluded requested
        (add_bucket organization_id excluded row usage) rest

unfoldable pub check_bucket : SyouyuQuotaLimits → SyouyuSpec → Result BucketRejection (Unit {0})
unfolding validate
check_bucket quota requested = do
  map_err invalid (validate requested)
  reject_if (ltb quota.max_bytes_per_bucket requested.quota_bytes) bytes_per_bucket
  reject_if (ltb quota.max_objects_per_bucket requested.quota_objects) objects_per_bucket

unfoldable pub check_bucket_usage :
    SyouyuQuotaLimits → BucketUsage → Result BucketRejection (Unit {0})
check_bucket_usage quota usage = do
  reject_if (ltb quota.max_buckets usage.buckets) buckets
  reject_if (ltb quota.max_total_bytes usage.bytes) total_bytes

unfoldable pub prepare_syouyu_spec :
    Uuid
    → Option Uuid
    → SyouyuQuotaLimits
    → List BucketRow
    → SyouyuSpec
    → Result BucketRejection SyouyuSpec
unfolding check_bucket name_owner bucket_usage check_bucket_usage
prepare_syouyu_spec organization_id excluded quota rows requested = do
  check_bucket quota requested
  reject_if (is_some_and (is_foreign excluded) (name_owner requested.bucket_name rows)) name_taken
  usage ←
      bucket_usage organization_id excluded requested
        (record { buckets = 1; bytes = requested.quota_bytes }) rows
  check_bucket_usage quota usage
  ok requested
