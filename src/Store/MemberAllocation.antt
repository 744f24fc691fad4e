-- ===== src/Store/MemberAllocation.antt =====
-- `ResourceQuotaUsage` of crates/heterocloud-store/src/lib.rs, and `validate_member_allocation` of
-- crates/heterocloud-store/src/organizations.rs: what a member's services may reserve.
pub mod Smaller
use ipa_rs_hetero_cloud.Prelude.{
  ℕ, ◌*◌, Bool, not, ◌&&◌, ◌||◌, Option, none, some, List, [], ◌∷◌, min, max, ltb, is_none, Result,
  ok, err, ◌>>=◌, ◌>>◌, reject_if, map_err,
}
use ipa_rs_hetero_cloud.Domain.Vpc.{Uuid}
use ipa_rs_hetero_cloud.Domain.Quota.{ResourceQuotaLimits}
use ipa_rs_hetero_cloud.Domain.Flow.{FlowSpec}
use ipa_rs_hetero_cloud.Domain.Flash.{FlashSpec, reserved_replicas}
use ipa_rs_hetero_cloud.Domain.Syouyu.{SyouyuSpec}
use ipa_rs_hetero_cloud.Store.Rooms.{u64_max, saturating_add}
use ipa_rs_hetero_cloud.Store.MemberQuotas.{
  MemberStore, MemberQuotaError, member_quota_in_transaction,
}

-- A specification, read by its provider.
pub data ServiceSpec : Type 0 where
  flow : FlowSpec → ServiceSpec
  flash : FlashSpec → ServiceSpec
  syouyu : SyouyuSpec → ServiceSpec

-- The fields that allocations add to, each a `u64`.
pub record ResourceQuotaUsage : Type 0 where
  pub flow_services : ℕ
  pub flow_max_rooms_per_service : ℕ
  pub flow_configured_rooms : ℕ
  pub flow_max_participants_per_service : ℕ
  pub flow_max_rate_limit_requests_per_second : ℕ
  pub flow_max_rate_limit_burst : ℕ
  pub flash_services : ℕ
  pub flash_max_replicas_per_service : ℕ
  pub flash_max_cpu_millis_per_vm : ℕ
  pub flash_max_memory_mib_per_vm : ℕ
  pub flash_max_disk_gib_per_vm : ℕ
  pub flash_replicas : ℕ
  pub flash_cpu_millis : ℕ
  pub flash_memory_mib : ℕ
  pub flash_disk_gib : ℕ
  pub syouyu_buckets : ℕ
  pub syouyu_max_bytes_per_bucket : ℕ
  pub syouyu_max_objects_per_bucket : ℕ
  pub syouyu_configured_bytes : ℕ

abbrev pub no_usage : ResourceQuotaUsage
no_usage = record {
  flow_services = 0;
  flow_max_rooms_per_service = 0;
  flow_configured_rooms = 0;
  flow_max_participants_per_service = 0;
  flow_max_rate_limit_requests_per_second = 0;
  flow_max_rate_limit_burst = 0;
  flash_services = 0;
  flash_max_replicas_per_service = 0;
  flash_max_cpu_millis_per_vm = 0;
  flash_max_memory_mib_per_vm = 0;
  flash_max_disk_gib_per_vm = 0;
  flash_replicas = 0;
  flash_cpu_millis = 0;
  flash_memory_mib = 0;
  flash_disk_gib = 0;
  syouyu_buckets = 0;
  syouyu_max_bytes_per_bucket = 0;
  syouyu_max_objects_per_bucket = 0;
  syouyu_configured_bytes = 0;
}

-- `u64::saturating_mul`
abbrev pub saturating_mul : ℕ → ℕ → ℕ
saturating_mul a b = min (a * b) u64_max

abbrev pub add_flow_spec : FlowSpec → ResourceQuotaUsage → ResourceQuotaUsage
add_flow_spec spec usage = record usage {
  flow_services = saturating_add usage.flow_services 1;
  flow_max_rooms_per_service = max usage.flow_max_rooms_per_service spec.max_rooms;
  flow_configured_rooms = saturating_add usage.flow_configured_rooms spec.max_rooms;
  flow_max_participants_per_service =
      max usage.flow_max_participants_per_service spec.max_participants;
  flow_max_rate_limit_requests_per_second =
      max usage.flow_max_rate_limit_requests_per_second spec.rate_limit.requests_per_second;
  flow_max_rate_limit_burst = max usage.flow_max_rate_limit_burst spec.rate_limit.burst;
}

abbrev pub add_flash_spec : FlashSpec → ResourceQuotaUsage → ResourceQuotaUsage
add_flash_spec spec usage =
    let replicas = reserved_replicas spec in
    record usage {
      flash_services = saturating_add usage.flash_services 1;
      flash_max_replicas_per_service = max usage.flash_max_replicas_per_service replicas;
      flash_max_cpu_millis_per_vm = max usage.flash_max_cpu_millis_per_vm spec.cpu_millis;
      flash_max_memory_mib_per_vm = max usage.flash_max_memory_mib_per_vm spec.memory_mib;
      flash_max_disk_gib_per_vm = max usage.flash_max_disk_gib_per_vm spec.ephemeral_storage_gib;
      flash_replicas = saturating_add usage.flash_replicas replicas;
      flash_cpu_millis =
          saturating_add usage.flash_cpu_millis (saturating_mul replicas spec.cpu_millis);
      flash_memory_mib =
          saturating_add usage.flash_memory_mib (saturating_mul replicas spec.memory_mib);
      flash_disk_gib =
          saturating_add usage.flash_disk_gib (saturating_mul replicas spec.ephemeral_storage_gib);
    }

abbrev pub add_syouyu_spec : SyouyuSpec → ResourceQuotaUsage → ResourceQuotaUsage
add_syouyu_spec spec usage = record usage {
  syouyu_buckets = saturating_add usage.syouyu_buckets 1;
  syouyu_max_bytes_per_bucket = max usage.syouyu_max_bytes_per_bucket spec.quota_bytes;
  syouyu_max_objects_per_bucket = max usage.syouyu_max_objects_per_bucket spec.quota_objects;
  syouyu_configured_bytes = saturating_add usage.syouyu_configured_bytes spec.quota_bytes;
}

-- `add`
abbrev pub add : ServiceSpec → ResourceQuotaUsage → ResourceQuotaUsage
add (flow spec) usage = add_flow_spec spec usage
add (flash spec) usage = add_flash_spec spec usage
add (syouyu spec) usage = add_syouyu_spec spec usage

abbrev pub add_all : List ServiceSpec → ResourceQuotaUsage → ResourceQuotaUsage
add_all [] usage = usage
add_all (spec ∷ rest) usage = add_all rest (add spec usage)

abbrev pub add_if_any : Option ServiceSpec → ResourceQuotaUsage → ResourceQuotaUsage
add_if_any none usage = usage
add_if_any (some spec) usage = add spec usage

-- `over`; `fresh` is `previous.is_none()`.
abbrev pub over : Bool → ℕ → ℕ → ℕ → Bool
over fresh after limit old = ltb limit after && (fresh || ltb old after)

-- What the member would have and had, and what the one service would have and had.
pub record Comparison : Type 0 where
  pub usage : ResourceQuotaUsage
  pub before : ResourceQuotaUsage
  pub requested_service : ResourceQuotaUsage
  pub previous_service : ResourceQuotaUsage

unfoldable pub flow_exceeded : Bool → ResourceQuotaLimits → Comparison → Bool
flow_exceeded fresh limits c =
    over fresh c.usage.flow_services limits.flow.max_services c.before.flow_services
    || (over fresh c.usage.flow_configured_rooms limits.flow.max_total_rooms
          c.before.flow_configured_rooms
        || (over fresh c.requested_service.flow_max_rooms_per_service
              limits.flow.max_rooms_per_service c.previous_service.flow_max_rooms_per_service
            || (over fresh c.requested_service.flow_max_participants_per_service
                  limits.flow.max_participants_per_service
                  c.previous_service.flow_max_participants_per_service
                || (over fresh c.requested_service.flow_max_rate_limit_requests_per_second
                      limits.flow.max_rate_limit_requests_per_second
                      c.previous_service.flow_max_rate_limit_requests_per_second
                    || (over fresh c.requested_service.flow_max_rate_limit_burst
                        limits.flow.max_rate_limit_burst
                        c.previous_service.flow_max_rate_limit_burst)))))

unfoldable pub flash_exceeded : Bool → ResourceQuotaLimits → Comparison → Bool
flash_exceeded fresh limits c =
    over fresh c.usage.flash_services limits.flash.max_services c.before.flash_services
    || (over fresh c.usage.flash_replicas limits.flash.max_total_replicas c.before.flash_replicas
        || (over fresh c.usage.flash_cpu_millis limits.flash.max_total_cpu_millis
              c.before.flash_cpu_millis
            || (over fresh c.usage.flash_memory_mib limits.flash.max_total_memory_mib
                  c.before.flash_memory_mib
                || (over fresh c.usage.flash_disk_gib limits.flash.max_total_disk_gib
                      c.before.flash_disk_gib
                    || (over fresh c.requested_service.flash_max_replicas_per_service
                          limits.flash.max_replicas_per_service
                          c.previous_service.flash_max_replicas_per_service
                        || (over fresh c.requested_service.flash_max_cpu_millis_per_vm
                              limits.flash.max_cpu_millis_per_vm
                              c.previous_service.flash_max_cpu_millis_per_vm
                            || (over fresh c.requested_service.flash_max_memory_mib_per_vm
                                  limits.flash.max_memory_mib_per_vm
                                  c.previous_service.flash_max_memory_mib_per_vm
                                || (over fresh c.requested_service.flash_max_disk_gib_per_vm
                                    limits.flash.max_disk_gib_per_vm
                                    c.previous_service.flash_max_disk_gib_per_vm))))))))

unfoldable pub syouyu_exceeded : Bool → ResourceQuotaLimits → Comparison → Bool
syouyu_exceeded fresh limits c =
    over fresh c.usage.syouyu_buckets limits.syouyu.max_buckets c.before.syouyu_buckets
    || (over fresh c.usage.syouyu_configured_bytes limits.syouyu.max_total_bytes
          c.before.syouyu_configured_bytes
        || (over fresh c.requested_service.syouyu_max_bytes_per_bucket
              limits.syouyu.max_bytes_per_bucket c.previous_service.syouyu_max_bytes_per_bucket
            || (over fresh c.requested_service.syouyu_max_objects_per_bucket
                limits.syouyu.max_objects_per_bucket
                c.previous_service.syouyu_max_objects_per_bucket)))

unfoldable pub exceeded : ServiceSpec → Bool → ResourceQuotaLimits → Comparison → Bool
unfolding flow_exceeded flash_exceeded syouyu_exceeded
exceeded (flow spec) fresh limits c = flow_exceeded fresh limits c
exceeded (flash spec) fresh limits c = flash_exceeded fresh limits c
exceeded (syouyu spec) fresh limits c = syouyu_exceeded fresh limits c

-- `others` are the member's other services of the provider that are not being deleted, and `previous`
-- is the service's specification where a reduction is allowed.
abbrev pub compare : List ServiceSpec → Option ServiceSpec → ServiceSpec → Comparison
compare others previous requested = record {
  usage = add requested (add_all others no_usage);
  before = add_if_any previous (add_all others no_usage);
  requested_service = add requested no_usage;
  previous_service = add_if_any previous no_usage;
}

pub data AllocationError : Type 0 where
  no_limits : MemberQuotaError → AllocationError
  exceeds_quota : AllocationError

unfoldable pub validate_member_allocation :
    Uuid
    → Uuid
    → ResourceQuotaLimits
    → MemberStore
    → List ServiceSpec
    → Option ServiceSpec
    → ServiceSpec
    → Result AllocationError (Unit {0})
unfolding member_quota_in_transaction exceeded
validate_member_allocation organization_id user_id organization_limits db others previous
      requested =
    do
      limits ←
          map_err no_limits
            (member_quota_in_transaction organization_id user_id organization_limits db)
      reject_if (exceeded requested (is_none previous) limits (compare others previous requested))
          exceeds_quota
