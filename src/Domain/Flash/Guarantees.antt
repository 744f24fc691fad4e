-- ===== src/Domain/Flash/Guarantees.antt =====
-- What an accepted Flash specification guarantees.
use ipa_rs_hetero_cloud.Prelude.{
  ◌≡◌, ℕ, ◌+◌, ◌≤◌, ◌<◌, String, Bool, true, false, not, ◌&&◌, ◌||◌, Option, none, some, [], arith,
  leb, ◌==◌, is_some, is_some_and, ok, passes_iff, ◌⨾◌,
}
use ipa_rs_hetero_cloud.Domain.Flash.{
  FlashSpec, FlashAutoscaling, FlashError, FlashEndpointMode, is_internal, is_forwarded, is_web,
  is_ip, reserved_replicas,
}
use ipa_rs_hetero_cloud.Domain.Flash.Networks.{Crates}
use ipa_rs_hetero_cloud.Domain.Flash.Ports.{at_container_ports, validate_ports}
use ipa_rs_hetero_cloud.Domain.Flash.Ports.Assigned.{check_ports-unassigned}
use ipa_rs_hetero_cloud.Domain.Flash.Validate.{
  if_some, check_autoscaling, or_one, bad_persistent, check_resources, one_tcp_port, check_oidc,
  check_exposure, validate_inner, validate, validate_request,
}
use ipa_rs_hetero_cloud.Domain.Flash.Passes.{
  as_is, itself, parts_iff, resources_iff, autoscaling_iff, scaling_passes,
}

-- A specification that is accepted for storage is also accepted as a request.
pub validate-validate_request :
    (crates : Crates) (spec : FlashSpec)
    → validate crates spec ≡ ok tt
    → validate_request crates spec ≡ ok tt
unfolding validate validate_request validate_ports
validate-validate_request crates spec h =
    let (a, (b, (c, (d, (e, (f, (ports, rest))))))) = (parts_iff crates true spec).0 h in
    (parts_iff crates false spec).1 (a, (b, (c, (d, (e, (f, (unassigned_ports ports, rest)))))))
  where
    unassigned_ports : validate_ports true spec ≡ ok tt → validate_ports false spec ≡ ok tt
    unassigned_ports h =
        ground (arith, check_ports-unassigned (at_container_ports spec) [] [] spec.ports)

-- What the tests on the disks, the GPU and the scaling say.
gpu_reserved :
    (spec : FlashSpec) (gpu : String)
    → spec.gpu_type ≡ some gpu
    → check_resources spec ≡ ok tt
    → reserved_replicas spec ≡ 1
unfolding check_resources reserved_replicas
gpu_reserved spec gpu has_gpu h =
    let (cpu, (memory, (name, (replicas, rest)))) = (resources_iff spec).0 h in
    one_replica spec.gpu_type spec.replicas spec.autoscaling has_gpu replicas
  where
    one_replica :
        (gpu_type : Option String) (replicas : ℕ) (autoscaling : Option FlashAutoscaling)
        → gpu_type ≡ some gpu
        → (is_some gpu_type
            && (not (replicas == 1)
                || is_some_and (λ scaling. not (scaling.max_replicas == 1)) autoscaling))
          ≡ false
        → elim autoscaling [ none ↦ replicas | some scaling ↦ scaling.max_replicas ] ≡ 1
    one_replica none replicas autoscaling e h = cc
    one_replica (some g) replicas none e h = ground arith
    one_replica (some g) replicas (some scaling) e h = ground arith

-- An accepted service with a GPU reserves one replica, autoscaling included.
pub reserved_replicas-gpu :
    (crates : Crates) (assigned : Bool) (spec : FlashSpec) (gpu : String)
    → spec.gpu_type ≡ some gpu
    → validate_inner crates assigned spec ≡ ok tt
    → reserved_replicas spec ≡ 1
reserved_replicas-gpu crates assigned spec gpu has_gpu h =
    let (a, (b, (c, (d, (e, (resources, rest)))))) = (parts_iff crates assigned spec).0 h in
    gpu_reserved spec gpu has_gpu resources

-- The persistent disk and the container's file system lie within the disk of the machine.
pub disk_parts-le :
    (crates : Crates) (assigned : Bool) (spec : FlashSpec) (persistent : ℕ)
    → spec.persistent_storage_gib ≡ some persistent
    → validate_inner crates assigned spec ≡ ok tt
    → (1 ≤ persistent) × (persistent + or_one spec.rootfs_storage_gib < spec.ephemeral_storage_gib)
unfolding check_resources bad_persistent
disk_parts-le crates assigned spec persistent has_disk h =
    let (a, (b, (c, (d, (e, (resources, rest)))))) = (parts_iff crates assigned spec).0 h in
    let (cpu, (memory, (name, (replicas, (disk, (rootfs, fits)))))) =
      (resources_iff spec).0 resources in
    within_disk spec.persistent_storage_gib (or_one spec.rootfs_storage_gib)
      spec.ephemeral_storage_gib has_disk fits
  where
    within_disk :
        (disk : Option ℕ) (rootfs total : ℕ)
        → disk ≡ some persistent
        → is_some_and (λ gib. gib == 0 || leb total (gib + rootfs)) disk ≡ false
        → (1 ≤ persistent) × (persistent + rootfs < total)
    within_disk none rootfs total e h = cc
    within_disk (some gib) rootfs total e h = ground arith

-- A service that scales to zero has the web endpoint, is public and forwarded, and has exactly
-- one port, over TCP.
pub scale_to_zero-web :
    (crates : Crates) (assigned : Bool) (spec : FlashSpec) (scaling : FlashAutoscaling)
    → spec.autoscaling ≡ some scaling
    → scaling.min_replicas ≡ 0
    → validate_inner crates assigned spec ≡ ok tt
    → (is_web spec.exposure.endpoint_mode ≡ true)
      × (is_internal spec.exposure.exposure_type ≡ false)
      × (is_forwarded spec.exposure.traffic_mode ≡ true)
      × (one_tcp_port spec.ports ≡ true)
unfolding check_autoscaling check_exposure
scale_to_zero-web crates assigned spec scaling has_scaling from_zero h =
    let (a, (b, (c, (d, (autoscaling, (e, (f, (exposure, rest)))))))) =
      (parts_iff crates assigned spec).0 h in
    let (bounds, (to_zero, others)) =
      (autoscaling_iff spec scaling).0 (scaling_passes spec scaling has_scaling autoscaling) in
    let (internal, (endpoint, (oidc, (ports, cidrs)))) =
      (passes_iff FlashError.internal_direct itself
          ⨾ passes_iff FlashError.endpoint_exposure itself
          ⨾ as_is {m = if_some (check_oidc crates spec.exposure) spec.exposure.authentication}
          ⨾ passes_iff FlashError.web_ports itself
          ⨾ passes_iff FlashError.web_cidrs itself).0
        exposure in
    web_only spec.exposure.endpoint_mode (web_endpoint to_zero) endpoint ports
  where
    web_endpoint :
        (scaling.min_replicas == 0 && not (is_web spec.exposure.endpoint_mode)) ≡ false
        → is_web spec.exposure.endpoint_mode ≡ true
    web_endpoint h = ground arith

    web_only :
        (mode : FlashEndpointMode)
        → is_web mode ≡ true
        → (not (is_ip mode)
            && (is_internal spec.exposure.exposure_type
                || not (is_forwarded spec.exposure.traffic_mode)))
          ≡ false
        → (is_web mode && not (one_tcp_port spec.ports)) ≡ false
        → (is_web mode ≡ true)
          × (is_internal spec.exposure.exposure_type ≡ false)
          × (is_forwarded spec.exposure.traffic_mode ≡ true)
          × (one_tcp_port spec.ports ≡ true)
    web_only FlashEndpointMode.web w e p = ground arith
    web_only FlashEndpointMode.ip w e p = cc
    web_only FlashEndpointMode.load_balancer w e p = cc
