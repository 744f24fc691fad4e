-- ===== src/Store/Buckets/Steps.antt =====
-- The table of buckets under creations, updates, deletions and changes of limits, in any order and of
-- all tenants.
pub mod Rows
pub mod Update
pub mod Limits
use ipa_rs_hetero_cloud.Prelude.{
  ◌≡◌, ℕ, ◌<◌, ◌≤◌, ◌^◌, Bool, true, false, Option, none, some, List, [], ◌∷◌, map, if◌then◌else◌,
  ◌==◌, ok, NotIn, Distinct, String, max,
}
use ipa_rs_hetero_cloud.Domain.Vpc.{Uuid}
use ipa_rs_hetero_cloud.Domain.Quota.{ResourceQuotaLimits, SyouyuQuotaLimits, validate}
use ipa_rs_hetero_cloud.Domain.Syouyu.{SyouyuSpec}
use ipa_rs_hetero_cloud.Store.Buckets.{BucketRow, prepare_syouyu_spec}
use ipa_rs_hetero_cloud.Store.Buckets.Exact.{count_of, bytes_of}

unfoldable pub find_bucket : Uuid → List BucketRow → Option BucketRow
find_bucket id [] = none
find_bucket id (row ∷ rest) =
    let later = find_bucket id rest in if row.id == id then some row else later

abbrev pub new_bucket : Uuid → Uuid → SyouyuSpec → BucketRow
new_bucket id organization_id spec = record {
  id = id;
  organization_id = organization_id;
  is_deleting = false;
  spec = spec;
}

abbrev pub change_bucket : Uuid → (BucketRow → BucketRow) → List BucketRow → List BucketRow
change_bucket id change = map (λ row. if row.id == id then change row else row)

abbrev pub with_spec : SyouyuSpec → BucketRow → BucketRow
with_spec spec row = record row { spec = spec }

abbrev pub begin_deletion : BucketRow → BucketRow
begin_deletion row = record row { is_deleting = true }

unfoldable pub remove_bucket : Uuid → List BucketRow → List BucketRow
remove_bucket id [] = []
remove_bucket id (row ∷ rest) =
    let kept = remove_bucket id rest in if row.id == id then kept else row ∷ kept

abbrev pub id_of : BucketRow → Uuid
id_of row = row.id

abbrev pub name_of : BucketRow → String
name_of row = row.spec.bucket_name

-- A transaction that succeeds; `limits` are the limits of each tenant.
pub data BucketStep (limits : Uuid → ResourceQuotaLimits)
    : List BucketRow → List BucketRow → Type 0 where
  created :
      (rows : List BucketRow) (id organization_id : Uuid) (requested spec : SyouyuSpec)
      → NotIn id (map id_of rows)
      → requested.quota_bytes < 2 ^ 64
      → prepare_syouyu_spec organization_id none (limits organization_id).syouyu rows requested
        ≡ ok spec
      → BucketStep limits rows (new_bucket id organization_id spec ∷ rows)
  updated :
      (rows : List BucketRow) (row : BucketRow) (requested spec : SyouyuSpec)
      → find_bucket row.id rows ≡ some row
      → row.is_deleting ≡ false
      → requested.quota_bytes < 2 ^ 64
      → prepare_syouyu_spec row.organization_id
          (some row.id)
          (limits row.organization_id).syouyu
          rows
          requested
        ≡ ok spec
      → BucketStep limits rows (change_bucket row.id (with_spec spec) rows)
  deletion_begun :
      (rows : List BucketRow) (id : Uuid)
      → BucketStep limits rows (change_bucket id begin_deletion rows)
  removed : (rows : List BucketRow) (id : Uuid) → BucketStep limits rows (remove_bucket id rows)

-- The higher of two limits on buckets and on bytes.
abbrev pub higher : ResourceQuotaLimits → ResourceQuotaLimits → ResourceQuotaLimits
higher a b = record a {
  syouyu = record a.syouyu {
    max_buckets = max a.syouyu.max_buckets b.syouyu.max_buckets;
    max_total_bytes = max a.syouyu.max_total_bytes b.syouyu.max_total_bytes;
  };
}

-- Transactions and changes of the limits of tenants, which are valid ones: `limits` are the limits of
-- each tenant at the end, and `highest` the highest that it has had.
pub data BucketRun
    : (Uuid → ResourceQuotaLimits) → (Uuid → ResourceQuotaLimits) → List BucketRow → Type 0 where
  no_bucket :
      (limits : Uuid → ResourceQuotaLimits)
      → ((organization_id : Uuid) → validate (limits organization_id) ≡ ok tt)
      → BucketRun limits limits []
  step_after :
      (limits highest : Uuid → ResourceQuotaLimits) (rows after : List BucketRow)
      → BucketRun limits highest rows
      → BucketStep limits rows after
      → BucketRun limits highest after
  limits_changed :
      (limits highest changed : Uuid → ResourceQuotaLimits) (rows : List BucketRow)
      → ((organization_id : Uuid) → validate (changed organization_id) ≡ ok tt)
      → BucketRun limits highest rows
      → BucketRun changed
          (λ organization_id. higher (highest organization_id) (changed organization_id))
          rows

-- Limits on buckets and bytes that are no higher.
abbrev pub Below : SyouyuQuotaLimits → ResourceQuotaLimits → Type 0
Below quota limits =
    (quota.max_buckets ≤ limits.syouyu.max_buckets)
    × (quota.max_total_bytes ≤ limits.syouyu.max_total_bytes)

-- No id and no name twice, and each tenant's live buckets within its limits.
pub record WithinLimits (limits : Uuid → ResourceQuotaLimits) (rows : List BucketRow) : Type 0 where
  pub ids : Distinct (map id_of rows)
  pub names : Distinct (map name_of rows)
  pub count :
      (organization_id : Uuid)
      → count_of organization_id none rows ≤ (limits organization_id).syouyu.max_buckets
  pub total :
      (organization_id : Uuid)
      → bytes_of organization_id none rows ≤ (limits organization_id).syouyu.max_total_bytes
