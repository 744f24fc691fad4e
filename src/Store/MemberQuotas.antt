-- ===== src/Store/MemberQuotas.antt =====
-- The personal limits of an organization's members, in
-- crates/heterocloud-store/src/organizations.rs. The organization's own limits, and whether it has
-- resources that no member owns, are arguments: other queries read them.
pub mod Settings
pub mod Capped
pub mod Allotted
pub mod Checked
pub mod Overrides
pub mod Current
use ipa_rs_hetero_cloud.Prelude.{
  ℕ, Bool, not, ◌&&◌, ◌||◌, Option, none, some, List, [], ◌∷◌, min, if◌then◌else◌, ◌==◌, Result, ok,
  err, ◌>>=◌, ◌>>◌, reject_if, map_err,
}
use ipa_rs_hetero_cloud.Domain.Vpc.{Uuid}
use ipa_rs_hetero_cloud.Domain.Quota.{
  FlowQuotaLimits, FlashQuotaLimits, RegistryQuotaLimits, SyouyuQuotaLimits, ResourceQuotaLimits,
  QuotaError, validate,
}
use ipa_rs_hetero_cloud.Store.LoginState.{MemberRow, is_member, keep_rows}

-- A row of `organization_member_resource_quotas`.
pub record OverrideRow : Type 0 where
  pub organization_id : Uuid
  pub user_id : Uuid
  pub limits : ResourceQuotaLimits

pub record MemberStore : Type 0 where
  pub memberships : List MemberRow
  pub overrides : List OverrideRow

-- `NotFound`, and `RequestRejected` by its message.
pub data MemberQuotaError : Type 0 where
  no_member unassigned_resources shared_limits above_organization : MemberQuotaError
  invalid_limits : QuotaError → MemberQuotaError

-- `parse_resource_quota` on a JSON text of the right shape, and `validate_resource_quota`.
unfoldable pub parse_resource_quota :
    ResourceQuotaLimits → Result MemberQuotaError ResourceQuotaLimits
unfolding validate
parse_resource_quota limits = do map_err invalid_limits (validate limits); ok limits

-- `cap` on the numbers of each part; the parts have the same keys.
abbrev pub cap_flow : FlowQuotaLimits → FlowQuotaLimits → FlowQuotaLimits
cap_flow value ceiling = record {
  max_services = min value.max_services ceiling.max_services;
  max_rooms_per_service = min value.max_rooms_per_service ceiling.max_rooms_per_service;
  max_total_rooms = min value.max_total_rooms ceiling.max_total_rooms;
  max_participants_per_service =
      min value.max_participants_per_service ceiling.max_participants_per_service;
  max_rate_limit_requests_per_second =
      min value.max_rate_limit_requests_per_second ceiling.max_rate_limit_requests_per_second;
  max_rate_limit_burst = min value.max_rate_limit_burst ceiling.max_rate_limit_burst;
  max_developer_credentials_per_service =
      min value.max_developer_credentials_per_service ceiling.max_developer_credentials_per_service;
}

abbrev pub cap_flash : FlashQuotaLimits → FlashQuotaLimits → FlashQuotaLimits
cap_flash value ceiling = record {
  max_services = min value.max_services ceiling.max_services;
  max_replicas_per_service = min value.max_replicas_per_service ceiling.max_replicas_per_service;
  max_cpu_millis_per_vm = min value.max_cpu_millis_per_vm ceiling.max_cpu_millis_per_vm;
  max_memory_mib_per_vm = min value.max_memory_mib_per_vm ceiling.max_memory_mib_per_vm;
  max_disk_gib_per_vm = min value.max_disk_gib_per_vm ceiling.max_disk_gib_per_vm;
  max_total_replicas = min value.max_total_replicas ceiling.max_total_replicas;
  max_total_cpu_millis = min value.max_total_cpu_millis ceiling.max_total_cpu_millis;
  max_total_memory_mib = min value.max_total_memory_mib ceiling.max_total_memory_mib;
  max_total_disk_gib = min value.max_total_disk_gib ceiling.max_total_disk_gib;
  max_weekly_cpu_millicore_seconds =
      min value.max_weekly_cpu_millicore_seconds ceiling.max_weekly_cpu_millicore_seconds;
  max_weekly_memory_mib_seconds =
      min value.max_weekly_memory_mib_seconds ceiling.max_weekly_memory_mib_seconds;
  max_weekly_gpu_seconds = min value.max_weekly_gpu_seconds ceiling.max_weekly_gpu_seconds;
}

abbrev pub cap_registry : RegistryQuotaLimits → RegistryQuotaLimits → RegistryQuotaLimits
cap_registry value ceiling = record {
  storage_gib = min value.storage_gib ceiling.storage_gib;
  max_credentials = min value.max_credentials ceiling.max_credentials;
}

abbrev pub cap_syouyu : SyouyuQuotaLimits → SyouyuQuotaLimits → SyouyuQuotaLimits
cap_syouyu value ceiling = record {
  max_buckets = min value.max_buckets ceiling.max_buckets;
  max_bytes_per_bucket = min value.max_bytes_per_bucket ceiling.max_bytes_per_bucket;
  max_objects_per_bucket = min value.max_objects_per_bucket ceiling.max_objects_per_bucket;
  max_total_bytes = min value.max_total_bytes ceiling.max_total_bytes;
  max_credentials_per_bucket =
      min value.max_credentials_per_bucket ceiling.max_credentials_per_bucket;
  max_total_credentials = min value.max_total_credentials ceiling.max_total_credentials;
}

abbrev pub cap : ResourceQuotaLimits → ResourceQuotaLimits → ResourceQuotaLimits
cap value ceiling = record {
  flow = cap_flow value.flow ceiling.flow;
  flash = cap_flash value.flash ceiling.flash;
  registry = cap_registry value.registry ceiling.registry;
  syouyu = cap_syouyu value.syouyu ceiling.syouyu;
}

-- What the members share is the organization's.
abbrev pub with_shared : ResourceQuotaLimits → ResourceQuotaLimits → ResourceQuotaLimits
with_shared organization limits = record limits {
  registry = organization.registry;
  syouyu = record limits.syouyu {
    max_credentials_per_bucket = organization.syouyu.max_credentials_per_bucket;
    max_total_credentials = organization.syouyu.max_total_credentials;
  };
}

unfoldable pub capped_limits :
    ResourceQuotaLimits → ResourceQuotaLimits → Result MemberQuotaError ResourceQuotaLimits
unfolding parse_resource_quota
capped_limits organization member = do
  limits ← parse_resource_quota (cap member organization)
  ok (with_shared organization limits)

-- `LEFT JOIN organization_member_resource_quotas`; organization and user are its primary key.
unfoldable pub find_override : Uuid → Uuid → List OverrideRow → Option ResourceQuotaLimits
find_override organization_id user_id [] = none
find_override organization_id user_id (row ∷ rest) =
    let later = find_override organization_id user_id rest in
    if row.organization_id == organization_id && row.user_id == user_id
    then some row.limits
    else later

unfoldable pub effective_limits :
    ResourceQuotaLimits → Option ResourceQuotaLimits → Result MemberQuotaError ResourceQuotaLimits
unfolding parse_resource_quota capped_limits
effective_limits organization_limits none = ok organization_limits
effective_limits organization_limits (some stored) = do
  member ← parse_resource_quota stored
  capped_limits organization_limits member

unfoldable pub member_quota_in_transaction :
    Uuid → Uuid → ResourceQuotaLimits → MemberStore → Result MemberQuotaError ResourceQuotaLimits
unfolding is_member find_override effective_limits
member_quota_in_transaction organization_id user_id organization_limits db = do
  reject_if (not (is_member organization_id user_id db.memberships)) no_member
  effective_limits organization_limits (find_override organization_id user_id db.overrides)
