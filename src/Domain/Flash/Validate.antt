-- ===== src/Domain/Flash/Validate.antt =====
-- `FlashSpec::validate_inner` of crates/heterocloud-domain/src/lib.rs, in parts.
use ipa_rs_hetero_cloud.Prelude.{
  ℕ, ◌+◌, max, String, Bool, true, false, not, ◌&&◌, ◌||◌, Option, none, some, List, [], ◌∷◌, ltb,
  leb, ◌==◌, within, length, any, is_empty, is_some, is_none, is_some_and, get_first?, get_last?,
  Result, ok, ◌>>◌, map_err, reject_if, chars, bytes, byte_len, is_ascii_lowercase, is_ascii_digit,
  is_control, is_whitespace,
}
use ipa_rs_hetero_cloud.Domain.Deployment
use ipa_rs_hetero_cloud.Domain.Vpc.{FlashVpcAttachment, validate_attachment, tcp}
use ipa_rs_hetero_cloud.Domain.Names.{valid_flash_gpu_type}
use ipa_rs_hetero_cloud.Domain.Flash.{
  FlashPort, FlashSpec, FlashExposure, FlashAutoscaling, FlashOidcAuthentication, FlashError,
  same_protocol, is_internal, is_forwarded, is_web, is_ip,
}
use ipa_rs_hetero_cloud.Domain.Flash.Networks.{
  Crates, validate_authentication, validate_flash_source_cidrs, validate_flash_egress,
}
use ipa_rs_hetero_cloud.Domain.Flash.Ports.{validate_ports}
use ipa_rs_hetero_cloud.Domain.Flash.Environment.{validate_environment}

-- A part that may be absent.
abbrev pub if_some :
    {A : Type 0} → (A → Result FlashError (Unit {0})) → Option A → Result FlashError (Unit {0})
if_some check none = ok tt
if_some check (some a) = check a

unfoldable pub check_deployment : Deployment.DeploymentPolicy → Result FlashError (Unit {0})
check_deployment policy = map_err FlashError.deployment (Deployment.validate policy)

unfoldable pub bad_region : List ℕ → Bool
bad_region region =
    is_empty region
    || (ltb 63 (length region)
        || (any
              (λ byte.
                not (is_ascii_lowercase byte) && (not (is_ascii_digit byte) && not (byte == b'-')))
              region
            || (is_some_and (λ byte. byte == b'-') (get_first? region)
                || is_some_and (λ byte. byte == b'-') (get_last? region))))

unfoldable pub bad_image : String → Bool
unfolding is_whitespace is_control
bad_image image =
    is_empty (chars image)
    || (ltb 512 (byte_len image)
        || (any is_whitespace (chars image) || any is_control (chars image)))

abbrev pub bad_target : Option ℕ → Bool
bad_target target = is_some_and (λ t. not (within 1 100 t)) target

unfoldable pub check_autoscaling : FlashSpec → FlashAutoscaling → Result FlashError (Unit {0})
check_autoscaling spec scaling = do
  reject_if
      (ltb scaling.max_replicas scaling.min_replicas
        || not (within (max scaling.min_replicas 1) scaling.max_replicas spec.replicas))
      FlashError.scaling_bounds
  reject_if (scaling.min_replicas == 0 && not (is_web spec.exposure.endpoint_mode))
      FlashError.scaling_to_zero
  reject_if (not (within 60 86400 scaling.idle_timeout_seconds)) FlashError.idle_timeout
  reject_if
      (is_none scaling.target_cpu_utilization_percent
          && is_none scaling.target_memory_utilization_percent
        || (bad_target scaling.target_cpu_utilization_percent
            || bad_target scaling.target_memory_utilization_percent))
      FlashError.scaling_targets

abbrev pub or_one : Option ℕ → ℕ
or_one none = 1
or_one (some n) = n

unfoldable pub bad_rootfs : FlashSpec → Bool
bad_rootfs spec =
    is_some_and (λ rootfs. rootfs == 0 || leb spec.ephemeral_storage_gib rootfs)
      spec.rootfs_storage_gib

-- In 64 bits, so that the sum does not wrap around.
unfoldable pub bad_persistent : FlashSpec → Bool
bad_persistent spec =
    is_some_and
      (λ persistent.
        persistent == 0
        || leb spec.ephemeral_storage_gib (persistent + or_one spec.rootfs_storage_gib))
      spec.persistent_storage_gib

-- Processor, memory, GPU and disks.
unfoldable pub check_resources : FlashSpec → Result FlashError (Unit {0})
unfolding bad_rootfs bad_persistent
check_resources spec = do
  reject_if (not (within 10 100000000 spec.cpu_millis)) FlashError.cpu
  reject_if (not (within 16 1048576 spec.memory_mib)) FlashError.memory
  reject_if (is_some_and (λ gpu_type. not (valid_flash_gpu_type gpu_type)) spec.gpu_type)
      FlashError.gpu_name
  reject_if
      (is_some spec.gpu_type
        && (not (spec.replicas == 1)
            || is_some_and (λ scaling. not (scaling.max_replicas == 1)) spec.autoscaling))
      FlashError.gpu_replicas
  reject_if (not (within 1 1000000 spec.ephemeral_storage_gib)) FlashError.disk
  reject_if (bad_rootfs spec) FlashError.rootfs
  reject_if (bad_persistent spec) FlashError.persistent

unfoldable pub check_oidc :
    Crates → FlashExposure → FlashOidcAuthentication → Result FlashError (Unit {0})
check_oidc crates exposure authentication = do
  reject_if (not (is_web exposure.endpoint_mode)) FlashError.oidc_endpoint
  validate_authentication crates authentication

-- `self.ports.len() == 1 && self.ports[0].protocol == FlashProtocol::Tcp`
abbrev pub one_tcp_port : List FlashPort → Bool
one_tcp_port (port ∷ []) = same_protocol port.protocol tcp
one_tcp_port _ = false

unfoldable pub check_exposure : Crates → FlashSpec → Result FlashError (Unit {0})
unfolding check_oidc
check_exposure crates spec = do
  reject_if
      (is_internal spec.exposure.exposure_type && not (is_forwarded spec.exposure.traffic_mode))
      FlashError.internal_direct
  reject_if
      (not (is_ip spec.exposure.endpoint_mode)
        && (is_internal spec.exposure.exposure_type
            || not (is_forwarded spec.exposure.traffic_mode)))
      FlashError.endpoint_exposure
  if_some (check_oidc crates spec.exposure) spec.exposure.authentication
  reject_if (is_web spec.exposure.endpoint_mode && not (one_tcp_port spec.ports))
      FlashError.web_ports
  reject_if
      (is_web spec.exposure.endpoint_mode
        && (not (is_empty spec.exposure.allowed_source_cidrs)
            || not (is_empty spec.exposure.denied_source_cidrs)))
      FlashError.web_cidrs

unfoldable pub check_network : FlashSpec → FlashVpcAttachment → Result FlashError (Unit {0})
check_network spec network = do
  map_err FlashError.network (validate_attachment network)
  reject_if spec.egress.allow_same_organization FlashError.same_organization

unfoldable pub check_networks : Crates → FlashSpec → Result FlashError (Unit {0})
unfolding check_network
check_networks crates spec = do
  validate_flash_source_cidrs crates spec.exposure.allowed_source_cidrs
  validate_flash_source_cidrs crates spec.exposure.denied_source_cidrs
  validate_flash_egress crates spec.egress
  if_some (check_network spec) spec.network

-- `require_assigned_service_ports` is the flag.
unfoldable pub validate_inner : Crates → Bool → FlashSpec → Result FlashError (Unit {0})
unfolding check_deployment bad_region bad_image check_autoscaling check_resources check_exposure
    check_networks
validate_inner crates assigned spec = do
  if_some check_deployment spec.deployment
  reject_if (bad_region (bytes spec.region)) FlashError.region
  reject_if (bad_image spec.image) FlashError.image
  reject_if (not (within 1 100000 spec.replicas)) FlashError.replicas
  if_some (check_autoscaling spec) spec.autoscaling
  check_resources spec
  validate_ports assigned spec
  check_exposure crates spec
  check_networks crates spec
  validate_environment spec

unfoldable pub validate : Crates → FlashSpec → Result FlashError (Unit {0})
unfolding validate_inner
validate crates spec = validate_inner crates true spec

unfoldable pub validate_request : Crates → FlashSpec → Result FlashError (Unit {0})
unfolding validate_inner
validate_request crates spec = validate_inner crates false spec
