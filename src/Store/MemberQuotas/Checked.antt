-- ===== src/Store/MemberQuotas/Checked.antt =====
-- What the tests on new personal limits say of them.
use ipa_rs_hetero_cloud.Prelude.{
  bind_ok, then_ok, ◌≡◌, ap, ◌∙◌, Bool, true, false, not, ◌&&◌, arith, ok, ◌>>◌, ◌>>=◌, some,
  reject_if_ok,
}
use ipa_rs_hetero_cloud.Domain.Quota.{
  FlowQuotaLimits, FlashQuotaLimits, RegistryQuotaLimits, SyouyuQuotaLimits, ResourceQuotaLimits,
}
use ipa_rs_hetero_cloud.Store.MemberQuotas.{
  above_organization, parse_resource_quota, capped_limits, effective_limits,
}
use ipa_rs_hetero_cloud.Store.MemberQuotas.Settings.{
  same_flow, same_flash, same_registry, same_syouyu, same_limits, check_limits,
}

same_registry_lem : (a b : RegistryQuotaLimits) → same_registry a b ≡ true → a ≡ b
unfolding same_registry
same_registry_lem a b h = ground arith

same_flash_lem : (a b : FlashQuotaLimits) → same_flash a b ≡ true → a ≡ b
unfolding same_flash
same_flash_lem a b h = ground arith

same_flow_lem : (a b : FlowQuotaLimits) → same_flow a b ≡ true → a ≡ b
unfolding same_flow
same_flow_lem a b h = ground arith

same_syouyu_lem : (a b : SyouyuQuotaLimits) → same_syouyu a b ≡ true → a ≡ b
unfolding same_syouyu
same_syouyu_lem a b h = ground arith

pub both_true : (a b : Bool) → (a && b) ≡ true → (a ≡ true) × (b ≡ true)
both_true a b h = ground arith

same_limits_lem : (a b : ResourceQuotaLimits) → same_limits a b ≡ true → a ≡ b
unfolding same_limits
same_limits_lem a b h =
    let (flow, rest) = both_true _ _ h in
    let (flash, last) = both_true _ _ rest in
    let (registry, syouyu) = both_true _ _ last in
    let flow_path = same_flow_lem a.flow b.flow flow in
    let flash_path = same_flash_lem a.flash b.flash flash in
    let registry_path = same_registry_lem a.registry b.registry registry in
    let syouyu_path = same_syouyu_lem a.syouyu b.syouyu syouyu in
    λ i. record {
      flow = flow_path i;
      flash = flash_path i;
      registry = registry_path i;
      syouyu = syouyu_path i;
    }

pub not_false_lem : (b : Bool) → not b ≡ false → b ≡ true
not_false_lem b h = ground arith

-- Accepted personal limits are what capping makes of them.
pub check_limits-capped :
    (organization limits : ResourceQuotaLimits) (unassigned : Bool)
    → check_limits organization unassigned limits ≡ ok tt
    → effective_limits organization (some limits) ≡ ok limits
unfolding check_limits effective_limits parse_resource_quota
check_limits-capped organization limits unassigned h =
    let (valid, rest) = then_ok _ _ tt h in
    let (owned, behind) = then_ok _ _ tt rest in
    let (shared, last) = then_ok _ _ tt behind in
    let (capped, path, same) = bind_ok _ _ tt last in
    let equal : capped ≡ limits =
      same_limits_lem capped limits
        (not_false_lem (same_limits capped limits) (reject_if_ok _ above_organization same)) in
    ap (λ m. (m >> ok limits) >>= capped_limits organization) valid ∙ path ∙ ap ok equal
