-- ===== src/Domain/Flash/Passes.antt =====
-- What the parts of `validate_inner` test, one by one.
use ipa_rs_hetero_cloud.Prelude.{
  ◌≡◌, ◌↔◌, max, Bool, false, not, ◌&&◌, ◌||◌, Option, none, some, ltb, ◌==◌, within, is_some,
  is_none, is_some_and, bytes, Result, ok, passes_iff, ◌⨾◌, ◌⊗◌,
}
use ipa_rs_hetero_cloud.Domain.Names.{valid_flash_gpu_type}
use ipa_rs_hetero_cloud.Domain.Flash.{FlashSpec, FlashAutoscaling, FlashError, is_web}
use ipa_rs_hetero_cloud.Domain.Flash.Networks.{Crates}
use ipa_rs_hetero_cloud.Domain.Flash.Ports.{validate_ports}
use ipa_rs_hetero_cloud.Domain.Flash.Environment.{validate_environment}
use ipa_rs_hetero_cloud.Domain.Flash.Validate.{
  if_some, check_deployment, bad_region, bad_image, check_autoscaling, bad_target, bad_rootfs,
  bad_persistent, check_resources, check_exposure, check_networks, validate_inner,
}

pub as_is : {m : Result FlashError (Unit {0})} → (m ≡ ok tt) ↔ (m ≡ ok tt)
as_is = (λ h. h, λ h. h)

pub itself : {b : Bool} → (b ≡ false) ↔ (b ≡ false)
itself = (λ h. h, λ h. h)

module _ (crates : Crates) (assigned : Bool) (spec : FlashSpec) where
  -- Each part of the specification passes.
  abbrev pub Passes : Type 0
  Passes =
      (if_some check_deployment spec.deployment ≡ ok tt)
      ⊗ (bad_region (bytes spec.region) ≡ false)
      ⊗ (bad_image spec.image ≡ false)
      ⊗ (not (within 1 100000 spec.replicas) ≡ false)
      ⊗ (if_some (check_autoscaling spec) spec.autoscaling ≡ ok tt)
      ⊗ (check_resources spec ≡ ok tt)
      ⊗ (validate_ports assigned spec ≡ ok tt)
      ⊗ (check_exposure crates spec ≡ ok tt)
      ⊗ (check_networks crates spec ≡ ok tt)
      ⊗ (validate_environment spec ≡ ok tt)

  pub parts_iff : (validate_inner crates assigned spec ≡ ok tt) ↔ Passes
  unfolding validate_inner
  parts_iff =
      as_is {m = if_some check_deployment spec.deployment}
      ⨾ passes_iff FlashError.region itself
      ⨾ passes_iff FlashError.image itself
      ⨾ passes_iff FlashError.replicas itself
      ⨾ as_is {m = if_some (check_autoscaling spec) spec.autoscaling}
      ⨾ as_is {m = check_resources spec}
      ⨾ as_is {m = validate_ports assigned spec}
      ⨾ as_is {m = check_exposure crates spec}
      ⨾ as_is {m = check_networks crates spec}
      ⨾ as_is {m = validate_environment spec}

-- The tests on processor, memory, GPU and disks, one by one.
pub resources_iff :
    (spec : FlashSpec)
    → (check_resources spec ≡ ok tt) ↔ (
        (not (within 10 100000000 spec.cpu_millis) ≡ false)
        ⊗ (not (within 16 1048576 spec.memory_mib) ≡ false)
        ⊗ (is_some_and (λ gpu_type. not (valid_flash_gpu_type gpu_type)) spec.gpu_type ≡ false)
        ⊗ ((is_some spec.gpu_type
              && (not (spec.replicas == 1)
                  || is_some_and (λ scaling. not (scaling.max_replicas == 1)) spec.autoscaling))
            ≡ false)
        ⊗ (not (within 1 1000000 spec.ephemeral_storage_gib) ≡ false)
        ⊗ (bad_rootfs spec ≡ false)
        ⊗ (bad_persistent spec ≡ false))
unfolding check_resources
resources_iff spec =
    passes_iff FlashError.cpu itself
    ⨾ passes_iff FlashError.memory itself
    ⨾ passes_iff FlashError.gpu_name itself
    ⨾ passes_iff FlashError.gpu_replicas itself
    ⨾ passes_iff FlashError.disk itself
    ⨾ passes_iff FlashError.rootfs itself
    ⨾ passes_iff FlashError.persistent itself

-- The first two tests on the scaling, and the others.
pub autoscaling_iff :
    (spec : FlashSpec) (scaling : FlashAutoscaling)
    → (check_autoscaling spec scaling ≡ ok tt) ↔ (
        ((ltb scaling.max_replicas scaling.min_replicas
            || not (within (max scaling.min_replicas 1) scaling.max_replicas spec.replicas))
          ≡ false)
        ⊗ ((scaling.min_replicas == 0 && not (is_web spec.exposure.endpoint_mode)) ≡ false)
        ⊗ (not (within 60 86400 scaling.idle_timeout_seconds) ≡ false)
        ⊗ ((is_none scaling.target_cpu_utilization_percent
                && is_none scaling.target_memory_utilization_percent
              || (bad_target scaling.target_cpu_utilization_percent
                  || bad_target scaling.target_memory_utilization_percent))
            ≡ false))
unfolding check_autoscaling
autoscaling_iff spec scaling =
    passes_iff FlashError.scaling_bounds itself
    ⨾ passes_iff FlashError.scaling_to_zero itself
    ⨾ passes_iff FlashError.idle_timeout itself
    ⨾ passes_iff FlashError.scaling_targets itself

-- Of `elim spec.autoscaling`, with the scaling named.
pub scaling_passes :
    (spec : FlashSpec) (scaling : FlashAutoscaling)
    → spec.autoscaling ≡ some scaling
    → if_some (check_autoscaling spec) spec.autoscaling ≡ ok tt
    → check_autoscaling spec scaling ≡ ok tt
scaling_passes spec scaling e h = present spec.autoscaling e h
  where
    present :
        (autoscaling : Option FlashAutoscaling)
        → autoscaling ≡ some scaling
        → if_some (check_autoscaling spec) autoscaling ≡ ok tt
        → check_autoscaling spec scaling ≡ ok tt
    present none e h = cc
    present (some other) e h = cc
