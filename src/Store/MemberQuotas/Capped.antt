-- ===== src/Store/MemberQuotas/Capped.antt =====
-- What capping keeps: valid limits stay valid.
use ipa_rs_hetero_cloud.Prelude.{◌≡◌, ap, ℕ, ◌≤◌, min, arith, ok, ◌⊗◌, map_err, ◌>>◌, ◌>>=◌}
use ipa_rs_hetero_cloud.Domain.Quota.{
  FlowQuotaLimits, FlashQuotaLimits, RegistryQuotaLimits, SyouyuQuotaLimits, ResourceQuotaLimits,
  validate,
}
use ipa_rs_hetero_cloud.Domain.Quota.Consistent.{
  Between, FlowConsistent, FlashConsistent, RegistryConsistent, SyouyuConsistent, Consistent,
  validate-Consistent,
}
use ipa_rs_hetero_cloud.Store.MemberQuotas.{
  invalid_limits, parse_resource_quota, cap_flow, cap_flash, cap_registry, cap_syouyu, cap,
  with_shared, capped_limits,
}

min-Between : (lo hi a b : ℕ) → Between lo hi a → Between lo hi b → Between lo hi (min a b)
min-Between lo hi a b p q = omega arith

part-min :
    (hi a b total_a total_b : ℕ)
    → Between a hi total_a
    → Between b hi total_b
    → Between (min a b) hi (min total_a total_b)
part-min hi a b total_a total_b p q = omega arith

min-le : (hi a b : ℕ) → a ≤ hi → min a b ≤ hi
min-le hi a b h = omega arith

-- Two facts about each part, taken together part by part.
infixr 3 ◌⊛◌
◌⊛◌ : {P Q R P2 Q2 R2 : Type 0} → (P → Q → R) → (P2 → Q2 → R2) → P ⊗ P2 → Q ⊗ Q2 → R ⊗ R2
◌⊛◌ f g p q = (f p.0 q.0, g p.1 q.1)

cap_flow-FlowConsistent :
    (a b : FlowQuotaLimits) → FlowConsistent a → FlowConsistent b → FlowConsistent (cap_flow a b)
cap_flow-FlowConsistent a b =
    min-Between _ _ _ _
    ⊛ (min-Between _ _ _ _ ⊛ part-min _ _ _ _ _)
    ⊛ min-Between _ _ _ _
    ⊛ (min-Between _ _ _ _ ⊛ part-min _ _ _ _ _)
    ⊛ min-Between _ _ _ _

cap_flash-FlashConsistent :
    (a b : FlashQuotaLimits)
    → FlashConsistent a
    → FlashConsistent b
    → FlashConsistent (cap_flash a b)
cap_flash-FlashConsistent a b =
    min-Between _ _ _ _
    ⊛ min-Between _ _ _ _
    ⊛ min-Between _ _ _ _
    ⊛ min-Between _ _ _ _
    ⊛ min-Between _ _ _ _
    ⊛ part-min _ _ _ _ _
    ⊛ part-min _ _ _ _ _
    ⊛ part-min _ _ _ _ _
    ⊛ part-min _ _ _ _ _
    ⊛ (λ h k. min-le _ _ _ h)
    ⊛ (λ h k. min-le _ _ _ h)
    ⊛ (λ h k. min-le _ _ _ h)

cap_syouyu-SyouyuConsistent :
    (a b : SyouyuQuotaLimits)
    → SyouyuConsistent a
    → SyouyuConsistent b
    → SyouyuConsistent (cap_syouyu a b)
cap_syouyu-SyouyuConsistent a b =
    min-Between _ _ _ _
    ⊛ (min-Between _ _ _ _ ⊛ part-min _ _ _ _ _)
    ⊛ min-Between _ _ _ _
    ⊛ (min-Between _ _ _ _ ⊛ part-min _ _ _ _ _)

cap_registry-RegistryConsistent :
    (a b : RegistryQuotaLimits)
    → RegistryConsistent a
    → RegistryConsistent b
    → RegistryConsistent (cap_registry a b)
cap_registry-RegistryConsistent a b = min-Between _ _ _ _ ⊛ min-Between _ _ _ _

cap-Consistent : (a b : ResourceQuotaLimits) → Consistent a → Consistent b → Consistent (cap a b)
cap-Consistent a b =
    cap_flow-FlowConsistent a.flow b.flow
    ⊛ cap_syouyu-SyouyuConsistent a.syouyu b.syouyu
    ⊛ cap_flash-FlashConsistent a.flash b.flash
    ⊛ cap_registry-RegistryConsistent a.registry b.registry

abbrev pub FlowAtMost : FlowQuotaLimits → FlowQuotaLimits → Type 0
FlowAtMost a b =
    (a.max_services ≤ b.max_services)
    × (a.max_rooms_per_service ≤ b.max_rooms_per_service)
    × (a.max_total_rooms ≤ b.max_total_rooms)
    × (a.max_participants_per_service ≤ b.max_participants_per_service)
    × (a.max_rate_limit_requests_per_second ≤ b.max_rate_limit_requests_per_second)
    × (a.max_rate_limit_burst ≤ b.max_rate_limit_burst)
    × (a.max_developer_credentials_per_service ≤ b.max_developer_credentials_per_service)

abbrev pub FlashAtMost : FlashQuotaLimits → FlashQuotaLimits → Type 0
FlashAtMost a b =
    (a.max_services ≤ b.max_services)
    × (a.max_replicas_per_service ≤ b.max_replicas_per_service)
    × (a.max_cpu_millis_per_vm ≤ b.max_cpu_millis_per_vm)
    × (a.max_memory_mib_per_vm ≤ b.max_memory_mib_per_vm)
    × (a.max_disk_gib_per_vm ≤ b.max_disk_gib_per_vm)
    × (a.max_total_replicas ≤ b.max_total_replicas)
    × (a.max_total_cpu_millis ≤ b.max_total_cpu_millis)
    × (a.max_total_memory_mib ≤ b.max_total_memory_mib)
    × (a.max_total_disk_gib ≤ b.max_total_disk_gib)
    × (a.max_weekly_cpu_millicore_seconds ≤ b.max_weekly_cpu_millicore_seconds)
    × (a.max_weekly_memory_mib_seconds ≤ b.max_weekly_memory_mib_seconds)
    × (a.max_weekly_gpu_seconds ≤ b.max_weekly_gpu_seconds)

abbrev pub RegistryAtMost : RegistryQuotaLimits → RegistryQuotaLimits → Type 0
RegistryAtMost a b = (a.storage_gib ≤ b.storage_gib) × (a.max_credentials ≤ b.max_credentials)

abbrev pub SyouyuAtMost : SyouyuQuotaLimits → SyouyuQuotaLimits → Type 0
SyouyuAtMost a b =
    (a.max_buckets ≤ b.max_buckets)
    × (a.max_bytes_per_bucket ≤ b.max_bytes_per_bucket)
    × (a.max_objects_per_bucket ≤ b.max_objects_per_bucket)
    × (a.max_total_bytes ≤ b.max_total_bytes)
    × (a.max_credentials_per_bucket ≤ b.max_credentials_per_bucket)
    × (a.max_total_credentials ≤ b.max_total_credentials)

-- No limit is above the one of the same name.
abbrev pub AtMost : ResourceQuotaLimits → ResourceQuotaLimits → Type 0
AtMost a b =
    FlowAtMost a.flow b.flow
    × FlashAtMost a.flash b.flash
    × RegistryAtMost a.registry b.registry
    × SyouyuAtMost a.syouyu b.syouyu

same_le : (n : ℕ) → n ≤ n
same_le n = omega arith

min-below : (a b : ℕ) → min a b ≤ b
min-below a b = omega arith

pub AtMost-same : (a : ResourceQuotaLimits) → AtMost a a
AtMost-same a = (
  (same_le _, same_le _, same_le _, same_le _, same_le _, same_le _, same_le _),
  (
    same_le _,
    same_le _,
    same_le _,
    same_le _,
    same_le _,
    same_le _,
    same_le _,
    same_le _,
    same_le _,
    same_le _,
    same_le _,
    same_le _,
  ),
  (same_le _, same_le _),
  (same_le _, same_le _, same_le _, same_le _, same_le _, same_le _),
)

pub shared-AtMost : (a b : ResourceQuotaLimits) → AtMost (with_shared b (cap a b)) b
shared-AtMost a b = (
  (
    min-below _ _,
    min-below _ _,
    min-below _ _,
    min-below _ _,
    min-below _ _,
    min-below _ _,
    min-below _ _,
  ),
  (
    min-below _ _,
    min-below _ _,
    min-below _ _,
    min-below _ _,
    min-below _ _,
    min-below _ _,
    min-below _ _,
    min-below _ _,
    min-below _ _,
    min-below _ _,
    min-below _ _,
    min-below _ _,
  ),
  (same_le _, same_le _),
  (min-below _ _, min-below _ _, min-below _ _, min-below _ _, same_le _, same_le _),
)

shared-Consistent :
    (organization limits : ResourceQuotaLimits)
    → Consistent organization
    → Consistent limits
    → Consistent (with_shared organization limits)
shared-Consistent organization limits org own =
    (own.0, ((own.1.0.0, (own.1.0.1.0, (own.1.0.1.1.0, org.1.0.1.1.1))), (own.1.1.0, org.1.1.1)))

pub parse_valid :
    (limits : ResourceQuotaLimits)
    → validate limits ≡ ok tt
    → parse_resource_quota limits ≡ ok limits
unfolding parse_resource_quota
parse_valid limits h = ap (λ m. map_err invalid_limits m >> ok limits) h

-- Capping valid limits at an organization's valid ones always yields limits, which are valid.
pub capped_limits_lem :
    (organization member : ResourceQuotaLimits)
    → validate organization ≡ ok tt
    → validate member ≡ ok tt
    → (capped_limits organization member ≡ ok (with_shared organization (cap member organization)))
      × (validate (with_shared organization (cap member organization)) ≡ ok tt)
unfolding capped_limits
capped_limits_lem organization member org own =
    let org_fits = (validate-Consistent organization).0 org in
    let fits = cap-Consistent member organization ((validate-Consistent member).0 own) org_fits in
    (
      ap (λ m. m >>= λ limits. ok (with_shared organization limits))
          (parse_valid (cap member organization)
            ((validate-Consistent (cap member organization)).1 fits)),
      (validate-Consistent (with_shared organization (cap member organization))).1
          (shared-Consistent organization (cap member organization) org_fits fits),
    )
