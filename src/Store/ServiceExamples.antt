-- ===== src/Store/ServiceExamples.antt =====
-- Rooms and buckets of a small tenant, and the theorems about them at concrete inputs.
use ipa_rs_hetero_cloud.Prelude.{
  ◌≡◌, ◌↔◌, refl, ℕ, String, true, none, some, List, [], ◌∷◌, arith, ok, err,
}
use mathlib.Core.List.Perm
use ipa_rs_hetero_cloud.Domain.Vpc.{Uuid}
use ipa_rs_hetero_cloud.Domain.Quota.{ResourceQuotaLimits, default_limits, validate}
use ipa_rs_hetero_cloud.Domain.Flow.{FlowSpec, validate_flow_spec}
use ipa_rs_hetero_cloud.Domain.Syouyu
use ipa_rs_hetero_cloud.Domain.Syouyu.{SyouyuSpec, is_ipv4, validate_s3_bucket_name}
use ipa_rs_hetero_cloud.Store.Rooms.{FlowAllocationRow, prepare_flow_spec}
use ipa_rs_hetero_cloud.Store.Rooms.Exact.{Fits, prepare_flow_spec_iff, prepare_flow_spec-perm}
use ipa_rs_hetero_cloud.Store.Buckets.{BucketRow, name_taken, immutable, prepare_syouyu_spec}
use ipa_rs_hetero_cloud.Store.Buckets.Steps.{
  new_bucket, find_bucket, created, updated, BucketRun, no_bucket, step_after, limits_changed,
  higher, WithinLimits,
}
use ipa_rs_hetero_cloud.Store.Buckets.Steps.Limits.{BucketRun-WithinLimits}

abbrev rooms : FlowSpec
rooms = record {
  region = "tokyo";
  max_participants = 100;
  max_rooms = 40;
  rate_limit = record { requests_per_second = 20; burst = 40 };
  metadata_is_object = true;
}

abbrev two_services : List FlowAllocationRow
two_services = record { id = 1; spec = rooms } ∷ record { id = 2; spec = rooms } ∷ []

abbrev two_services_again : List FlowAllocationRow
two_services_again = record { id = 2; spec = rooms } ∷ record { id = 1; spec = rooms } ∷ []

rooms_test : validate_flow_spec rooms ≡ ok tt
unfolding validate_flow_spec
rooms_test = refl

flow_test : prepare_flow_spec none default_limits.flow two_services rooms ≡ ok rooms
unfolding prepare_flow_spec
flow_test = refl

defaults_valid : validate default_limits ≡ ok tt
unfolding validate
defaults_valid = refl

prepare_flow_spec_iff_example :
    (prepare_flow_spec none default_limits.flow two_services rooms ≡ ok rooms)
    ↔ Fits none default_limits.flow two_services rooms
prepare_flow_spec_iff_example =
    prepare_flow_spec_iff none default_limits two_services rooms defaults_valid (omega arith)

prepare_flow_spec-perm_example :
    prepare_flow_spec none default_limits.flow two_services rooms
    ≡ prepare_flow_spec none default_limits.flow two_services_again rooms
prepare_flow_spec-perm_example =
    prepare_flow_spec-perm none default_limits.flow two_services two_services_again rooms
      (omega arith)
      (Perm.swap (record { id = 2; spec = rooms }) (record { id = 1; spec = rooms }) [])

abbrev bucket : String → ℕ → SyouyuSpec
bucket name bytes = record {
  region = "heteronet-global";
  bucket_name = name;
  quota_bytes = bytes;
  quota_objects = 1000;
  metadata = some 2;
}

abbrev limits : Uuid → ResourceQuotaLimits
limits organization_id = default_limits

abbrev small : SyouyuSpec
small = bucket "photos" 1048576

abbrev larger : SyouyuSpec
larger = bucket "photos" 2097152

abbrev one_bucket : List BucketRow
one_bucket = new_bucket 5 1 small ∷ []

abbrev grown : List BucketRow
grown = new_bucket 5 1 larger ∷ []

first_test : prepare_syouyu_spec 1 none default_limits.syouyu [] small ≡ ok small
unfolding prepare_syouyu_spec
first_test = refl

grow_test : prepare_syouyu_spec 1 (some 5) default_limits.syouyu one_bucket larger ≡ ok larger
unfolding prepare_syouyu_spec
grow_test = refl

-- A name is taken for every tenant.
taken_test : prepare_syouyu_spec 2 none default_limits.syouyu one_bucket small ≡ err name_taken
unfolding prepare_syouyu_spec
taken_test = refl

renamed_test :
    prepare_syouyu_spec 1 (some 5) default_limits.syouyu one_bucket (bucket "videos" 1048576)
    ≡ err immutable
unfolding prepare_syouyu_spec
renamed_test = refl

address_test : validate_s3_bucket_name "192.168.0.1" ≡ err Syouyu.bucket_name
unfolding validate_s3_bucket_name
address_test = refl

no_address_test : validate_s3_bucket_name "192.168.0.256" ≡ ok tt
unfolding validate_s3_bucket_name
no_address_test = refl

dots_test : validate_s3_bucket_name "my..photos" ≡ err Syouyu.bucket_name
unfolding validate_s3_bucket_name
dots_test = refl

found_test : find_bucket 5 one_bucket ≡ some (new_bucket 5 1 small)
unfolding find_bucket
found_test = refl

-- The limit on bytes is lowered at the end, and the buckets stay.
abbrev lowered : Uuid → ResourceQuotaLimits
lowered organization_id = record default_limits {
  syouyu = record default_limits.syouyu {
    max_total_bytes = 1048576;
    max_bytes_per_bucket = 1048576;
  };
}

lowered_valid : (organization_id : Uuid) → validate (lowered organization_id) ≡ ok tt
unfolding validate
lowered_valid organization_id = refl

abbrev grown_run :
    BucketRun lowered
      (λ organization_id. higher (limits organization_id) (lowered organization_id))
      grown
grown_run = limits_changed limits limits lowered grown lowered_valid (
    step_after limits limits one_bucket grown
      (step_after limits limits [] one_bucket (no_bucket limits (λ organization_id. defaults_valid))
        (created [] 5 1 small small tt (omega arith) first_test))
      (updated one_bucket (new_bucket 5 1 small) larger larger found_test refl (omega arith)
        grow_test))

BucketRun-WithinLimits_example :
    WithinLimits
      (λ organization_id. higher (limits organization_id) (lowered organization_id))
      grown
BucketRun-WithinLimits_example =
    BucketRun-WithinLimits lowered
      (λ organization_id. higher (limits organization_id) (lowered organization_id)) grown grown_run
