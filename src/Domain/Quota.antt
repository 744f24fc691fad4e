-- ===== src/Domain/Quota.antt =====
-- `ResourceQuotaLimits` of crates/heterocloud-domain/src/lib.rs: what a tenant may reserve.
pub mod Consistent
use ipa_rs_hetero_cloud.Prelude.{ℕ, ◌*◌, ◌^◌, Bool, not, ◌||◌, ltb, within, Result, ◌>>◌, reject_if}

pub record FlowQuotaLimits : Type 0 where
  pub max_services : ℕ
  pub max_rooms_per_service : ℕ
  pub max_total_rooms : ℕ
  pub max_participants_per_service : ℕ
  pub max_rate_limit_requests_per_second : ℕ
  pub max_rate_limit_burst : ℕ
  pub max_developer_credentials_per_service : ℕ

pub record FlashQuotaLimits : Type 0 where
  pub max_services : ℕ
  pub max_replicas_per_service : ℕ
  pub max_cpu_millis_per_vm : ℕ
  pub max_memory_mib_per_vm : ℕ
  pub max_disk_gib_per_vm : ℕ
  pub max_total_replicas : ℕ
  pub max_total_cpu_millis : ℕ
  pub max_total_memory_mib : ℕ
  pub max_total_disk_gib : ℕ
  pub max_weekly_cpu_millicore_seconds : ℕ
  pub max_weekly_memory_mib_seconds : ℕ
  pub max_weekly_gpu_seconds : ℕ

pub record RegistryQuotaLimits : Type 0 where
  pub storage_gib : ℕ
  pub max_credentials : ℕ

pub record SyouyuQuotaLimits : Type 0 where
  pub max_buckets : ℕ
  pub max_bytes_per_bucket : ℕ
  pub max_objects_per_bucket : ℕ
  pub max_total_bytes : ℕ
  pub max_credentials_per_bucket : ℕ
  pub max_total_credentials : ℕ

pub record ResourceQuotaLimits : Type 0 where
  pub flow : FlowQuotaLimits
  pub flash : FlashQuotaLimits
  pub registry : RegistryQuotaLimits
  pub syouyu : SyouyuQuotaLimits

abbrev pub max_tenant_services : ℕ
max_tenant_services = 10000

abbrev pub min_syouyu_quota_bytes : ℕ
min_syouyu_quota_bytes = 1048576

-- 10 TiB
abbrev pub max_syouyu_quota_bytes : ℕ
max_syouyu_quota_bytes = 10995116277760

abbrev pub max_syouyu_quota_objects : ℕ
max_syouyu_quota_objects = 1000000000

-- `SyouyuQuotaLimits::default`: 10 GiB in a bucket, 30 GiB in all.
abbrev pub default_syouyu : SyouyuQuotaLimits
default_syouyu = record {
  max_buckets = 10;
  max_bytes_per_bucket = 10737418240;
  max_objects_per_bucket = 1000000;
  max_total_bytes = 32212254720;
  max_credentials_per_bucket = 10;
  max_total_credentials = 1000;
}

-- `ResourceQuotaLimits::default`
abbrev pub default_limits : ResourceQuotaLimits
default_limits = record {
  flow = record {
    max_services = 100;
    max_rooms_per_service = 1000000;
    max_total_rooms = 1000000;
    max_participants_per_service = 100000;
    max_rate_limit_requests_per_second = 1000;
    max_rate_limit_burst = 5000;
    max_developer_credentials_per_service = 100;
  };
  flash = record {
    max_services = 100;
    max_replicas_per_service = 100;
    max_cpu_millis_per_vm = 4000;
    max_memory_mib_per_vm = 8128;
    max_disk_gib_per_vm = 10;
    max_total_replicas = 100;
    max_total_cpu_millis = 20000;
    max_total_memory_mib = 32768;
    max_total_disk_gib = 100;
    max_weekly_cpu_millicore_seconds = 3245760000;
    max_weekly_memory_mib_seconds = 2836280317;
    max_weekly_gpu_seconds = 40320;
  };
  registry = record { storage_gib = 10; max_credentials = 10 };
  syouyu = default_syouyu;
}

-- The messages of `invalid_quota`, by the limit that they name.
pub data QuotaError : Type 0 where
  flow_services flow_rooms flow_participants flow_rates flow_credentials : QuotaError
  syouyu_buckets syouyu_bytes syouyu_objects syouyu_credentials : QuotaError
  flash_services flash_replicas flash_cpu flash_memory flash_disk : QuotaError
  flash_total_replicas flash_total_cpu flash_total_memory flash_total_disk : QuotaError
  flash_weekly_gpu flash_weekly_cpu flash_weekly_memory : QuotaError
  registry_storage registry_credentials : QuotaError

unfoldable pub validate_flow : FlowQuotaLimits → Result QuotaError (Unit {0})
validate_flow flow = do
  reject_if (not (within 1 max_tenant_services flow.max_services)) flow_services
  reject_if
      (not (within 1 1000000 flow.max_rooms_per_service)
        || (ltb flow.max_total_rooms flow.max_rooms_per_service
            || ltb 100000000 flow.max_total_rooms))
      flow_rooms
  reject_if (not (within 1 100000 flow.max_participants_per_service)) flow_participants
  reject_if
      (not (within 1 1000 flow.max_rate_limit_requests_per_second)
        || (not (within 1 5000 flow.max_rate_limit_burst)
            || ltb flow.max_rate_limit_burst flow.max_rate_limit_requests_per_second))
      flow_rates
  reject_if (not (within 1 10000 flow.max_developer_credentials_per_service)) flow_credentials

unfoldable pub validate_syouyu : SyouyuQuotaLimits → Result QuotaError (Unit {0})
validate_syouyu syouyu = do
  reject_if (not (within 1 max_tenant_services syouyu.max_buckets)) syouyu_buckets
  reject_if
      (not (within min_syouyu_quota_bytes max_syouyu_quota_bytes syouyu.max_bytes_per_bucket)
        || (ltb syouyu.max_total_bytes syouyu.max_bytes_per_bucket
            || ltb max_syouyu_quota_bytes syouyu.max_total_bytes))
      syouyu_bytes
  reject_if (not (within 1 max_syouyu_quota_objects syouyu.max_objects_per_bucket)) syouyu_objects
  reject_if
      (not (within 1 10000 syouyu.max_credentials_per_bucket)
        || (ltb syouyu.max_total_credentials syouyu.max_credentials_per_bucket
            || ltb 1000000 syouyu.max_total_credentials))
      syouyu_credentials

unfoldable pub validate_flash : FlashQuotaLimits → Result QuotaError (Unit {0})
validate_flash flash = do
  reject_if (not (within 1 max_tenant_services flash.max_services)) flash_services
  reject_if (not (within 1 100000 flash.max_replicas_per_service)) flash_replicas
  reject_if (not (within 10 100000000 flash.max_cpu_millis_per_vm)) flash_cpu
  reject_if (not (within 16 1048576 flash.max_memory_mib_per_vm)) flash_memory
  reject_if (not (within 1 1000000 flash.max_disk_gib_per_vm)) flash_disk
  reject_if (not (within flash.max_replicas_per_service 100000 flash.max_total_replicas))
      flash_total_replicas
  reject_if (not (within flash.max_cpu_millis_per_vm 100000000 flash.max_total_cpu_millis))
      flash_total_cpu
  reject_if (not (within flash.max_memory_mib_per_vm 1048576 flash.max_total_memory_mib))
      flash_total_memory
  reject_if (not (within flash.max_disk_gib_per_vm 1000000 flash.max_total_disk_gib))
      flash_total_disk
  reject_if (ltb 31536000 flash.max_weekly_gpu_seconds) flash_weekly_gpu
  reject_if (ltb 3153600000000000 flash.max_weekly_cpu_millicore_seconds) flash_weekly_cpu
  reject_if (ltb 33067892736000 flash.max_weekly_memory_mib_seconds) flash_weekly_memory

unfoldable pub validate_registry : RegistryQuotaLimits → Result QuotaError (Unit {0})
validate_registry registry = do
  reject_if (not (within 1 10240 registry.storage_gib)) registry_storage
  reject_if (not (within 1 1000 registry.max_credentials)) registry_credentials

-- `ResourceQuotaLimits::validate`
unfoldable pub validate : ResourceQuotaLimits → Result QuotaError (Unit {0})
unfolding validate_flow validate_syouyu validate_flash validate_registry
validate limits = do
  validate_flow limits.flow
  validate_syouyu limits.syouyu
  validate_flash limits.flash
  validate_registry limits.registry
