-- ===== src/Store/MemberAllocation/Smaller.antt =====
-- A service may always be changed to one that reserves no more.
use ipa_rs_hetero_cloud.Prelude.{
  ◌≡◌, ap, ◌∙◌, ℕ, ◌+◌, ◌*◌, ◌≤◌, Bool, false, ◌||◌, some, List, min, max, arith, ok, ◌>>=◌,
  reject_if, map_err,
}
use native.Mathlib.Nat.{mul-le-mul_left, mul-le-mul_right}
use ipa_rs_hetero_cloud.Domain.Vpc.{Uuid}
use ipa_rs_hetero_cloud.Domain.Quota.{ResourceQuotaLimits}
use ipa_rs_hetero_cloud.Domain.Flash.{reserved_replicas}
use ipa_rs_hetero_cloud.Store.Rooms.{u64_max, saturating_add}
use ipa_rs_hetero_cloud.Store.MemberQuotas.{MemberStore, member_quota_in_transaction}
use ipa_rs_hetero_cloud.Store.MemberAllocation.{
  ServiceSpec, flow, flash, syouyu, no_usage, saturating_mul, add_all, over, compare, flow_exceeded,
  flash_exceeded, syouyu_exceeded, exceeded, no_limits, exceeds_quota, validate_member_allocation,
}

-- A service of the same provider that asks for no more in any respect.
abbrev pub Smaller : ServiceSpec → ServiceSpec → Type 0
Smaller (flow a) (flow b) =
    (a.max_rooms ≤ b.max_rooms)
    × (a.max_participants ≤ b.max_participants)
    × (a.rate_limit.requests_per_second ≤ b.rate_limit.requests_per_second)
    × (a.rate_limit.burst ≤ b.rate_limit.burst)
Smaller (flash a) (flash b) =
    (reserved_replicas a ≤ reserved_replicas b)
    × (a.cpu_millis ≤ b.cpu_millis)
    × (a.memory_mib ≤ b.memory_mib)
    × (a.ephemeral_storage_gib ≤ b.ephemeral_storage_gib)
Smaller (syouyu a) (syouyu b) =
    (a.quota_bytes ≤ b.quota_bytes) × (a.quota_objects ≤ b.quota_objects)
Smaller _ _ = ⊥

not_over : {after old : ℕ} (limit : ℕ) → after ≤ old → over false after limit old ≡ false
not_over {after} {old} limit h = ground arith

infixr 4 ◌⊞◌
◌⊞◌ : {a b : Bool} → a ≡ false → b ≡ false → (a || b) ≡ false
◌⊞◌ {a} {b} p q = ground arith

same_le : (n : ℕ) → n ≤ n
same_le n = omega arith

max_mono : (n a b : ℕ) → a ≤ b → max n a ≤ max n b
max_mono n a b h = omega arith

min_mono : (top a b : ℕ) → a ≤ b → min a top ≤ min b top
min_mono top a b h = omega arith

add_mono : (n a b : ℕ) → a ≤ b → n + a ≤ n + b
add_mono n a b h = omega arith

sum_mono : (n a b : ℕ) → a ≤ b → saturating_add n a ≤ saturating_add n b
sum_mono n a b h = min_mono u64_max (n + a) (n + b) (add_mono n a b h)

mul_mono : (a b c d : ℕ) → a ≤ c → b ≤ d → a * b ≤ c * d
mul_mono a b c d p q =
    let left : a * b ≤ a * d = mul-le-mul_left a q in
    let right : a * d ≤ c * d = mul-le-mul_right d p in omega arith

product_mono :
    (n a b c d : ℕ)
    → a ≤ c
    → b ≤ d
    → saturating_add n (saturating_mul a b) ≤ saturating_add n (saturating_mul c d)
product_mono n a b c d p q =
    sum_mono n (saturating_mul a b) (saturating_mul c d)
      (min_mono u64_max (a * b) (c * d) (mul_mono a b c d p q))

exceeded-Smaller :
    (limits : ResourceQuotaLimits) (others : List ServiceSpec) (previous requested : ServiceSpec)
    → Smaller requested previous
    → exceeded requested false limits (compare others (some previous) requested) ≡ false
unfolding exceeded flow_exceeded flash_exceeded syouyu_exceeded
exceeded-Smaller limits others (flow b) (flow a) (rooms, participants, rate, burst) =
    let n = add_all others no_usage in
    not_over limits.flow.max_services (same_le (saturating_add n.flow_services 1))
    ⊞ not_over limits.flow.max_total_rooms
        (sum_mono n.flow_configured_rooms a.max_rooms b.max_rooms rooms)
    ⊞ not_over limits.flow.max_rooms_per_service (max_mono 0 a.max_rooms b.max_rooms rooms)
    ⊞ not_over limits.flow.max_participants_per_service
        (max_mono 0 a.max_participants b.max_participants participants)
    ⊞ not_over limits.flow.max_rate_limit_requests_per_second
        (max_mono 0 a.rate_limit.requests_per_second b.rate_limit.requests_per_second rate)
    ⊞ not_over limits.flow.max_rate_limit_burst
        (max_mono 0 a.rate_limit.burst b.rate_limit.burst burst)
exceeded-Smaller limits others (flash b) (flash a) (replicas, cpu, memory, disk) =
    let n = add_all others no_usage in
    not_over limits.flash.max_services (same_le (saturating_add n.flash_services 1))
    ⊞ not_over limits.flash.max_total_replicas
        (sum_mono n.flash_replicas (reserved_replicas a) (reserved_replicas b) replicas)
    ⊞ not_over limits.flash.max_total_cpu_millis
        (product_mono n.flash_cpu_millis _ _ _ _ replicas cpu)
    ⊞ not_over limits.flash.max_total_memory_mib
        (product_mono n.flash_memory_mib _ _ _ _ replicas memory)
    ⊞ not_over limits.flash.max_total_disk_gib (product_mono n.flash_disk_gib _ _ _ _ replicas disk)
    ⊞ not_over limits.flash.max_replicas_per_service
        (max_mono 0 (reserved_replicas a) (reserved_replicas b) replicas)
    ⊞ not_over limits.flash.max_cpu_millis_per_vm (max_mono 0 a.cpu_millis b.cpu_millis cpu)
    ⊞ not_over limits.flash.max_memory_mib_per_vm (max_mono 0 a.memory_mib b.memory_mib memory)
    ⊞ not_over limits.flash.max_disk_gib_per_vm
        (max_mono 0 a.ephemeral_storage_gib b.ephemeral_storage_gib disk)
exceeded-Smaller limits others (syouyu b) (syouyu a) (bytes, objects) =
    let n = add_all others no_usage in
    not_over limits.syouyu.max_buckets (same_le (saturating_add n.syouyu_buckets 1))
    ⊞ not_over limits.syouyu.max_total_bytes
        (sum_mono n.syouyu_configured_bytes a.quota_bytes b.quota_bytes bytes)
    ⊞ not_over limits.syouyu.max_bytes_per_bucket (max_mono 0 a.quota_bytes b.quota_bytes bytes)
    ⊞ not_over limits.syouyu.max_objects_per_bucket
        (max_mono 0 a.quota_objects b.quota_objects objects)
exceeded-Smaller limits others (flow b) (flash a) h = absurd h
exceeded-Smaller limits others (flow b) (syouyu a) h = absurd h
exceeded-Smaller limits others (flash b) (flow a) h = absurd h
exceeded-Smaller limits others (flash b) (syouyu a) h = absurd h
exceeded-Smaller limits others (syouyu b) (flow a) h = absurd h
exceeded-Smaller limits others (syouyu b) (flash a) h = absurd h

-- If the member has limits, a change of a service to one of the same provider that reserves no more
-- in any respect is accepted, where a reduction is allowed: however far the limits have been lowered
-- below what the member's services reserve.
pub validate_member_allocation-Smaller :
    (organization_id user_id : Uuid) (organization limits : ResourceQuotaLimits) (db : MemberStore)
    (others : List ServiceSpec) (previous requested : ServiceSpec)
    → member_quota_in_transaction organization_id user_id organization db ≡ ok limits
    → Smaller requested previous
    → validate_member_allocation organization_id user_id organization db others
        (some previous)
        requested
      ≡ ok tt
unfolding validate_member_allocation
validate_member_allocation-Smaller organization_id user_id organization limits db others previous
      requested own smaller =
    ap
      (λ m. map_err no_limits m >>= λ found.
        reject_if (exceeded requested false found (compare others (some previous) requested))
          exceeds_quota)
      own
    ∙ ap (λ b. reject_if b exceeds_quota)
        (exceeded-Smaller limits others previous requested smaller)
