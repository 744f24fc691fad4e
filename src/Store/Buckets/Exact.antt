-- ===== src/Store/Buckets/Exact.antt =====
-- The tests of bucket reservations by exact sums.
use ipa_rs_hetero_cloud.Prelude.{
  ◌≡◌, ◌≢◌, refl, subst, ℕ, ◌+◌, ◌<◌, ◌≤◌, ◌^◌, String, Bool, true, false, not, ◌&&◌, Option, none,
  List, [], ◌∷◌, arith, min, if◌then◌else◌, ltb, ltb-false_iff, is_some_and, All, ok, reject_if,
  bind_ok, then_ok, ok_inj, reject_if_ok, eq_iff, sum_of, Bool-cases, inl, inr,
}
use ipa_rs_hetero_cloud.Domain.Vpc.{Uuid}
use ipa_rs_hetero_cloud.Domain.Quota.{SyouyuQuotaLimits, ResourceQuotaLimits, validate}
use ipa_rs_hetero_cloud.Domain.Quota.Consistent.{validate-Consistent}
use ipa_rs_hetero_cloud.Domain.Syouyu.{SyouyuSpec}
use ipa_rs_hetero_cloud.Store.Rooms.{u64_max, saturating_add, is_left_out}
use ipa_rs_hetero_cloud.Store.Buckets.{
  BucketRow, name_taken, immutable, buckets, total_bytes, BucketUsage, name_owner, is_foreign,
  is_live, changes_name, add_bucket, bucket_usage, check_bucket, check_bucket_usage,
  prepare_syouyu_spec,
}

-- The other live buckets of the tenant.
abbrev pub counts : Uuid → Option Uuid → BucketRow → Bool
counts organization_id excluded row =
    is_live organization_id row && not (is_left_out excluded row.id)

abbrev pub count_of : Uuid → Option Uuid → List BucketRow → ℕ
count_of organization_id excluded =
    sum_of (λ row. if counts organization_id excluded row then 1 else 0)

abbrev pub bytes_of : Uuid → Option Uuid → List BucketRow → ℕ
bytes_of organization_id excluded =
    sum_of (λ row. if counts organization_id excluded row then row.spec.quota_bytes else 0)

abbrev Sums : Uuid → Option Uuid → BucketUsage → List BucketRow → BucketUsage → Type 0
Sums organization_id excluded usage rows total =
    (total.buckets ≡ min (usage.buckets + count_of organization_id excluded rows) u64_max)
    × (total.bytes ≡ min (usage.bytes + bytes_of organization_id excluded rows) u64_max)

add_bucket-bounds :
    (organization_id : Uuid) (excluded : Option Uuid) (row : BucketRow) (usage : BucketUsage)
    → usage.buckets ≤ u64_max
    → usage.bytes ≤ u64_max
    → ((add_bucket organization_id excluded row usage).buckets ≤ u64_max)
      × ((add_bucket organization_id excluded row usage).bytes ≤ u64_max)
unfolding add_bucket
add_bucket-bounds organization_id excluded row usage b y =
    elim (Bool-cases (counts organization_id excluded row)) [
      | inl e ↦ rw e (omega arith)
      | inr e ↦ rw e (b, y)
    ]

add_bucket-Sums :
    (organization_id : Uuid) (excluded : Option Uuid) (row : BucketRow) (usage : BucketUsage)
    (rest : List BucketRow) (total : BucketUsage)
    → usage.buckets ≤ u64_max
    → usage.bytes ≤ u64_max
    → Sums organization_id excluded (add_bucket organization_id excluded row usage) rest total
    → Sums organization_id excluded usage (row ∷ rest) total
unfolding add_bucket
add_bucket-Sums organization_id excluded row usage rest total b y h =
    by_test (counts organization_id excluded row) refl h
  where
    added : Bool → BucketUsage
    added t =
        if t
        then record {
          buckets = saturating_add usage.buckets 1;
          bytes = saturating_add usage.bytes row.spec.quota_bytes;
        }
        else usage

    by_test :
        (t : Bool)
        → counts organization_id excluded row ≡ t
        → Sums organization_id excluded (added (counts organization_id excluded row)) rest total
        → Sums organization_id excluded usage (row ∷ rest) total
    by_test true e s =
        let s' = subst (λ t. Sums organization_id excluded (added t) rest total) e s in
        rw e (omega arith)
    by_test false e s =
        let s' = subst (λ t. Sums organization_id excluded (added t) rest total) e s in
        rw e (omega arith)

bucket_usage-exact :
    (organization_id : Uuid) (excluded : Option Uuid) (requested : SyouyuSpec)
    (usage total : BucketUsage) (rows : List BucketRow)
    → usage.buckets ≤ u64_max
    → usage.bytes ≤ u64_max
    → bucket_usage organization_id excluded requested usage rows ≡ ok total
    → Sums organization_id excluded usage rows total
unfolding bucket_usage
bucket_usage-exact organization_id excluded requested usage total [] b y h =
    let same : usage ≡ total = ok_inj h in (ground arith, ground arith)
bucket_usage-exact organization_id excluded requested usage total (row ∷ rest) b y h =
    let (test, later) = then_ok _ _ total h in
    let (fewer, room) = add_bucket-bounds organization_id excluded row usage b y in
    add_bucket-Sums organization_id excluded row usage rest total b y (
      bucket_usage-exact organization_id excluded requested
        (add_bucket organization_id excluded row usage) total rest fewer room later)

-- The rows of the service itself keep their name.
abbrev pub Kept : Uuid → Option Uuid → SyouyuSpec → BucketRow → Type 0
Kept organization_id excluded requested row =
    is_live organization_id row ≡ true
    → is_left_out excluded row.id ≡ true
    → (requested.bucket_name ≡ row.spec.bucket_name) × (requested.region ≡ row.spec.region)

unchanged :
    (live mine : Bool) (requested stored : SyouyuSpec)
    → (live && mine && changes_name requested stored) ≡ false
    → live ≡ true
    → mine ≡ true
    → (requested.bucket_name ≡ stored.bucket_name) × (requested.region ≡ stored.region)
unfolding changes_name
unchanged live mine requested stored h l m =
    let names = eq_iff requested.bucket_name stored.bucket_name in
    let regions = eq_iff requested.region stored.region in (ground arith, ground arith)

bucket_usage-Kept :
    (organization_id : Uuid) (excluded : Option Uuid) (requested : SyouyuSpec)
    (rows : List BucketRow) (usage total : BucketUsage)
    → bucket_usage organization_id excluded requested usage rows ≡ ok total
    → All (Kept organization_id excluded requested) rows
unfolding bucket_usage
bucket_usage-Kept organization_id excluded requested [] usage total h = tt
bucket_usage-Kept organization_id excluded requested (row ∷ rest) usage total h =
    let (test, later) = then_ok _ _ total h in
    (
      unchanged (is_live organization_id row) (is_left_out excluded row.id) requested row.spec
          (reject_if_ok _ immutable test),
      bucket_usage-Kept organization_id excluded requested rest
          (add_bucket organization_id excluded row usage) total later,
    )

-- A name without an owner is no row's.
pub name_owner-none :
    (name : String) (rows : List BucketRow)
    → name_owner name rows ≡ none
    → All (λ row. row.spec.bucket_name ≢ name) rows
unfolding name_owner
name_owner-none name [] h = tt
name_owner-none name (row ∷ rest) h =
    let same = eq_iff row.spec.bucket_name name in
    ((λ e. ground arith), name_owner-none name rest (ground arith))

-- What an accepted specification has passed.
pub record Accepted (organization_id : Uuid) (excluded : Option Uuid) (quota : SyouyuQuotaLimits)
    (rows : List BucketRow) (requested : SyouyuSpec) : Type 0 where
  pub checked : check_bucket quota requested ≡ ok tt
  pub name_free : is_some_and (is_foreign excluded) (name_owner requested.bucket_name rows) ≡ false
  pub kept : All (Kept organization_id excluded requested) rows
  pub count : 1 + count_of organization_id excluded rows ≤ quota.max_buckets
  pub total : requested.quota_bytes + bytes_of organization_id excluded rows ≤ quota.max_total_bytes

usage_limits :
    (quota : SyouyuQuotaLimits) (usage : BucketUsage) (count total : ℕ)
    → check_bucket_usage quota usage ≡ ok tt
    → usage.buckets ≡ min count u64_max
    → usage.bytes ≡ min total u64_max
    → quota.max_buckets < u64_max
    → quota.max_total_bytes < u64_max
    → (count ≤ quota.max_buckets) × (total ≤ quota.max_total_bytes)
unfolding check_bucket_usage
usage_limits quota usage count total h b y few small =
    let (p, q) =
      then_ok (reject_if (ltb quota.max_buckets usage.buckets) buckets)
        (reject_if (ltb quota.max_total_bytes usage.bytes) total_bytes) tt h in
    let within_count =
      (ltb-false_iff quota.max_buckets usage.buckets).0 (reject_if_ok _ buckets p) in
    let within_total =
      (ltb-false_iff quota.max_total_bytes usage.bytes).0 (reject_if_ok _ total_bytes q) in
    (omega arith, omega arith)

small_limits :
    (limits : ResourceQuotaLimits)
    → validate limits ≡ ok tt
    → (limits.syouyu.max_buckets < u64_max) × (limits.syouyu.max_total_bytes < u64_max)
small_limits limits valid =
    let consistent = ((validate-Consistent limits).0 valid).1.0 in (omega arith, omega arith)

one_fits : 1 ≤ u64_max
one_fits = omega arith

word_fits : (n : ℕ) → n < 2 ^ 64 → n ≤ u64_max
word_fits n h = omega arith

pub prepare_syouyu_spec-Accepted :
    (organization_id : Uuid) (excluded : Option Uuid) (limits : ResourceQuotaLimits)
    (rows : List BucketRow) (requested result : SyouyuSpec)
    → validate limits ≡ ok tt
    → requested.quota_bytes < 2 ^ 64
    → prepare_syouyu_spec organization_id excluded limits.syouyu rows requested ≡ ok result
    → (requested ≡ result) × Accepted organization_id excluded limits.syouyu rows requested
unfolding prepare_syouyu_spec
prepare_syouyu_spec-Accepted organization_id excluded limits rows requested result valid word h =
    let first : BucketUsage = record { buckets = 1; bytes = requested.quota_bytes } in
    let (checked, h1) = then_ok _ _ result h in
    let (free, h2) = then_ok _ _ result h1 in
    let (usage, summed, h3) = bind_ok _ _ result h2 in
    let (fits, same) = then_ok _ _ result h3 in
    let (b, y) =
      bucket_usage-exact organization_id excluded requested first usage rows one_fits
        (word_fits requested.quota_bytes word) summed in
    let (few, small) = small_limits limits valid in
    let (count, total) = usage_limits limits.syouyu usage _ _ fits b y few small in
    (
      ok_inj same,
      record {
        checked = checked;
        name_free = reject_if_ok _ name_taken free;
        kept = bucket_usage-Kept organization_id excluded requested rows first usage summed;
        count = count;
        total = total;
      },
    )
