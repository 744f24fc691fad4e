-- ===== src/Domain/Quota/Consistent.antt =====
-- Which limits of a tenant are accepted.
use ipa_rs_hetero_cloud.Prelude.{
  ◌≡◌, ◌↔◌, ℕ, ◌≤◌, false, not, ◌||◌, ltb, within, arith, ok, passes_iff, ◌⨾◌, ◌⊗◌,
}
use ipa_rs_hetero_cloud.Domain.Quota.{
  FlowQuotaLimits, FlashQuotaLimits, SyouyuQuotaLimits, RegistryQuotaLimits, ResourceQuotaLimits,
  validate_flow, validate_syouyu, validate_flash, validate_registry, validate,
}

abbrev pub Between : ℕ → ℕ → ℕ → Type 0
Between lo hi n = (lo ≤ n) × (n ≤ hi)

-- One service fits into the tenant's rooms, and a burst is no smaller than a second's requests.
abbrev pub FlowConsistent : FlowQuotaLimits → Type 0
FlowConsistent flow =
    Between 1 10000 flow.max_services
    ⊗ (Between 1 1000000 flow.max_rooms_per_service
        ⊗ Between flow.max_rooms_per_service 100000000 flow.max_total_rooms)
    ⊗ Between 1 100000 flow.max_participants_per_service
    ⊗ (Between 1 1000 flow.max_rate_limit_requests_per_second
        ⊗ Between flow.max_rate_limit_requests_per_second 5000 flow.max_rate_limit_burst)
    ⊗ Between 1 10000 flow.max_developer_credentials_per_service

abbrev pub SyouyuConsistent : SyouyuQuotaLimits → Type 0
SyouyuConsistent syouyu =
    Between 1 10000 syouyu.max_buckets
    ⊗ (Between 1048576 10995116277760 syouyu.max_bytes_per_bucket
        ⊗ Between syouyu.max_bytes_per_bucket 10995116277760 syouyu.max_total_bytes)
    ⊗ Between 1 1000000000 syouyu.max_objects_per_bucket
    ⊗ (Between 1 10000 syouyu.max_credentials_per_bucket
        ⊗ Between syouyu.max_credentials_per_bucket 1000000 syouyu.max_total_credentials)

-- One virtual machine, and one service, fits into what the tenant has in all.
abbrev pub FlashConsistent : FlashQuotaLimits → Type 0
FlashConsistent flash =
    Between 1 10000 flash.max_services
    ⊗ Between 1 100000 flash.max_replicas_per_service
    ⊗ Between 10 100000000 flash.max_cpu_millis_per_vm
    ⊗ Between 16 1048576 flash.max_memory_mib_per_vm
    ⊗ Between 1 1000000 flash.max_disk_gib_per_vm
    ⊗ Between flash.max_replicas_per_service 100000 flash.max_total_replicas
    ⊗ Between flash.max_cpu_millis_per_vm 100000000 flash.max_total_cpu_millis
    ⊗ Between flash.max_memory_mib_per_vm 1048576 flash.max_total_memory_mib
    ⊗ Between flash.max_disk_gib_per_vm 1000000 flash.max_total_disk_gib
    ⊗ (flash.max_weekly_gpu_seconds ≤ 31536000)
    ⊗ (flash.max_weekly_cpu_millicore_seconds ≤ 3153600000000000)
    ⊗ (flash.max_weekly_memory_mib_seconds ≤ 33067892736000)

abbrev pub RegistryConsistent : RegistryQuotaLimits → Type 0
RegistryConsistent registry =
    Between 1 10240 registry.storage_gib ⊗ Between 1 1000 registry.max_credentials

abbrev pub Consistent : ResourceQuotaLimits → Type 0
Consistent limits =
    FlowConsistent limits.flow
    ⊗ SyouyuConsistent limits.syouyu
    ⊗ FlashConsistent limits.flash
    ⊗ RegistryConsistent limits.registry

within-Between : (lo hi n : ℕ) → (not (within lo hi n) ≡ false) ↔ Between lo hi n
within-Between lo hi n = ground arith

-- A part within its range and no larger than the whole, which has a bound of its own.
part-Between :
    (lo hi n top total : ℕ)
    → ((not (within lo hi n) || (ltb total n || ltb top total)) ≡ false)
      ↔ (Between lo hi n × Between n top total)
part-Between lo hi n top total = ground arith

pair-Between :
    (hi n top total : ℕ)
    → ((not (within 1 hi n) || (not (within 1 top total) || ltb total n)) ≡ false)
      ↔ (Between 1 hi n × Between n top total)
pair-Between hi n top total = ground arith

ltb-false_iff : (n hi : ℕ) → (ltb hi n ≡ false) ↔ (n ≤ hi)
ltb-false_iff n hi = ground arith

validate_flow_iff : (flow : FlowQuotaLimits) → (validate_flow flow ≡ ok tt) ↔ FlowConsistent flow
unfolding validate_flow
validate_flow_iff flow =
    passes_iff _ (within-Between 1 10000 _)
    ⨾ passes_iff _ (part-Between 1 1000000 _ 100000000 _)
    ⨾ passes_iff _ (within-Between 1 100000 _)
    ⨾ passes_iff _ (pair-Between 1000 _ 5000 _)
    ⨾ (passes_iff _ (within-Between 1 10000 _))

validate_syouyu_iff :
    (syouyu : SyouyuQuotaLimits) → (validate_syouyu syouyu ≡ ok tt) ↔ SyouyuConsistent syouyu
unfolding validate_syouyu
validate_syouyu_iff syouyu =
    passes_iff _ (within-Between 1 10000 _)
    ⨾ passes_iff _ (part-Between 1048576 10995116277760 _ 10995116277760 _)
    ⨾ passes_iff _ (within-Between 1 1000000000 _)
    ⨾ passes_iff _ (part-Between 1 10000 _ 1000000 _)

validate_flash_iff :
    (flash : FlashQuotaLimits) → (validate_flash flash ≡ ok tt) ↔ FlashConsistent flash
unfolding validate_flash
validate_flash_iff flash =
    passes_iff _ (within-Between 1 10000 _)
    ⨾ passes_iff _ (within-Between 1 100000 _)
    ⨾ passes_iff _ (within-Between 10 100000000 _)
    ⨾ passes_iff _ (within-Between 16 1048576 _)
    ⨾ passes_iff _ (within-Between 1 1000000 _)
    ⨾ passes_iff _ (within-Between _ 100000 _)
    ⨾ passes_iff _ (within-Between _ 100000000 _)
    ⨾ passes_iff _ (within-Between _ 1048576 _)
    ⨾ passes_iff _ (within-Between _ 1000000 _)
    ⨾ passes_iff _ (ltb-false_iff _ 31536000)
    ⨾ passes_iff _ (ltb-false_iff _ 3153600000000000)
    ⨾ passes_iff _ (ltb-false_iff _ 33067892736000)

validate_registry_iff :
    (registry : RegistryQuotaLimits)
    → (validate_registry registry ≡ ok tt) ↔ RegistryConsistent registry
unfolding validate_registry
validate_registry_iff registry =
    passes_iff _ (within-Between 1 10240 _) ⨾ (passes_iff _ (within-Between 1 1000 _))

-- A tenant's limits are accepted exactly if each lies in its safety range, no limit of one
-- service, machine or bucket exceeds that of the tenant, and a burst of requests is no smaller
-- than the requests of a second.
pub validate-Consistent :
    (limits : ResourceQuotaLimits) → (validate limits ≡ ok tt) ↔ Consistent limits
unfolding validate
validate-Consistent limits =
    validate_flow_iff limits.flow
    ⨾ validate_syouyu_iff limits.syouyu
    ⨾ validate_flash_iff limits.flash
    ⨾ validate_registry_iff limits.registry
