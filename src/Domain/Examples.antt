-- ===== src/Domain/Examples.antt =====
-- A Flash service, a VPC and limits, and what the theorems say of them.
use ipa_rs_hetero_cloud.Prelude.{
  ◌≡◌, refl, ◌↔◌, ◌+◌, ◌≤◌, ◌<◌, true, false, none, some, [], ◌∷◌, map, length, All, ok, err, ◌⊗◌,
  Distinct, byte_len,
}
use ipa_rs_hetero_cloud.Domain.Vpc
use ipa_rs_hetero_cloud.Domain.Vpc.{
  tcp, udp, VpcSpec, VpcRule, VpcPeer, security_group, all_services,
}
use ipa_rs_hetero_cloud.Domain.Vpc.Groups.{GoodGroups, GoodRule, vpc_validate_iff}
use ipa_rs_hetero_cloud.Domain.Quota
use ipa_rs_hetero_cloud.Domain.Quota.{default_limits}
use ipa_rs_hetero_cloud.Domain.Quota.Consistent.{Consistent, validate-Consistent}
use ipa_rs_hetero_cloud.Domain.Flash.{
  FlashPort, FlashSpec, FlashAutoscaling, FlashExposureType, FlashTrafficMode, FlashEndpointMode,
  FlashEgressMode, FlashError, is_web, is_internal, is_forwarded,
}
use ipa_rs_hetero_cloud.Domain.Flash.Networks.{Crates}
use ipa_rs_hetero_cloud.Domain.Flash.Ports.{slot, at_container_ports, validate_ports}
use ipa_rs_hetero_cloud.Domain.Flash.Ports.Assigned.{GoodPort, validate_ports_iff}
use ipa_rs_hetero_cloud.Domain.Flash.Validate.{
  validate, validate_request, validate_inner, one_tcp_port, or_one,
}
use ipa_rs_hetero_cloud.Domain.Flash.Guarantees.{
  validate-validate_request, disk_parts-le, scale_to_zero-web,
}

-- Each text is a network of its own, and no URL.
abbrev pub plain_crates : Crates
plain_crates = record {
  parse_net = λ value. some (record { is_v6 = false; address = byte_len value; prefix_len = 32 });
  parse_addr = λ value. none;
  trunc = λ net. net;
  contains_net = λ a b. false;
  parse_url = λ value. none;
}

abbrev pub web_port : FlashPort
web_port = record { name = "http"; protocol = tcp; container_port = 8080; service_port = 30001 }

abbrev pub from_zero : FlashAutoscaling
from_zero = record {
  min_replicas = 0;
  max_replicas = 1;
  target_cpu_utilization_percent = some 80;
  target_memory_utilization_percent = none;
  idle_timeout_seconds = 900;
}

-- A GPU service that scales to zero, with a persistent disk.
abbrev pub gpu_service : FlashSpec
gpu_service = record {
  region = "tokyo";
  image = "app:1";
  deployment = none;
  task_role = none;
  replicas = 1;
  stopped = false;
  autoscaling = some from_zero;
  cpu_millis = 1000;
  memory_mib = 512;
  gpu_type = some "l4";
  ephemeral_storage_gib = 10;
  rootfs_storage_gib = some 2;
  persistent_storage_gib = some 4;
  restore_from_backup_id = none;
  ports = web_port ∷ [];
  exposure = record {
    exposure_type = FlashExposureType.public;
    traffic_mode = FlashTrafficMode.forwarded;
    endpoint_mode = FlashEndpointMode.web;
    allowed_source_cidrs = [];
    denied_source_cidrs = [];
    authentication = none;
  };
  egress = record {
    mode = FlashEgressMode.internet;
    allow_same_organization = false;
    allowed_destination_cidrs = [];
    denied_destination_cidrs = [];
  };
  network = none;
  env = ("LOG", "info") ∷ [];
  secret_env = [];
  secret_files = ("api-key", "vault") ∷ [];
  command = [];
  args = "--serve" ∷ [];
  metadata = some 2;
}

gpu_service_valid : validate plain_crates gpu_service ≡ ok tt
unfolding validate ipa_rs_hetero_cloud.Prelude.utf8
    ipa_rs_hetero_cloud.Domain.Names.valid_flash_gpu_type validate_ports
    ipa_rs_hetero_cloud.Domain.Names.valid_flash_port_name
    ipa_rs_hetero_cloud.Domain.Flash.Networks.validate_flash_source_cidrs
    ipa_rs_hetero_cloud.Domain.Flash.Networks.validate_flash_egress
    ipa_rs_hetero_cloud.Domain.Flash.Environment.validate_environment
    ipa_rs_hetero_cloud.Domain.Names.valid_flash_env_name
    ipa_rs_hetero_cloud.Domain.Flash.Environment.env_char ipa_rs_hetero_cloud.Prelude.same_text
gpu_service_valid = refl

gpu_service_passes : validate_inner plain_crates true gpu_service ≡ ok tt
unfolding validate_inner ipa_rs_hetero_cloud.Prelude.utf8
    ipa_rs_hetero_cloud.Domain.Names.valid_flash_gpu_type validate_ports
    ipa_rs_hetero_cloud.Domain.Names.valid_flash_port_name
    ipa_rs_hetero_cloud.Domain.Flash.Networks.validate_flash_source_cidrs
    ipa_rs_hetero_cloud.Domain.Flash.Networks.validate_flash_egress
    ipa_rs_hetero_cloud.Domain.Flash.Environment.validate_environment
    ipa_rs_hetero_cloud.Domain.Names.valid_flash_env_name
    ipa_rs_hetero_cloud.Domain.Flash.Environment.env_char ipa_rs_hetero_cloud.Prelude.same_text
gpu_service_passes = refl

-- Two ports may share a number, not a protocol with it.
two_ports :
    validate_ports true (record gpu_service {
      ports =
          web_port
          ∷ record { name = "dns"; protocol = udp; container_port = 53; service_port = 30001 }
          ∷ [];
    })
    ≡ ok tt
unfolding validate_ports ipa_rs_hetero_cloud.Domain.Names.valid_flash_port_name
    ipa_rs_hetero_cloud.Prelude.utf8
two_ports = refl

same_port :
    validate_ports true
      (record gpu_service { ports = web_port ∷ record web_port { name = "api" } ∷ [] })
    ≡ err FlashError.service_port_twice
unfolding validate_ports ipa_rs_hetero_cloud.Domain.Names.valid_flash_port_name
    ipa_rs_hetero_cloud.Prelude.utf8
same_port = refl

defaults_valid : Quota.validate default_limits ≡ ok tt
unfolding Quota.validate
defaults_valid = refl

abbrev pub small_vpc : VpcSpec
small_vpc = record {
  region = "tokyo";
  description = "";
  nat = false;
  security_groups = "default" ∷ "web" ∷ [];
  rules =
      record {
        description = "";
        source = security_group "web";
        destination = all_services;
        protocol = tcp;
        port = 80;
        end_port = some 81;
      }
      ∷ [];
}

small_vpc_valid : Vpc.validate small_vpc ≡ ok tt
unfolding Vpc.validate ipa_rs_hetero_cloud.Prelude.utf8
    ipa_rs_hetero_cloud.Domain.Names.valid_private_name
small_vpc_valid = refl

vpc_validate_iff_example : (Vpc.validate small_vpc ≡ ok tt) ↔ (
    ((1 ≤ byte_len small_vpc.region) × (byte_len small_vpc.region ≤ 128))
    ⊗ (byte_len small_vpc.description ≤ 2048)
    ⊗ GoodGroups 32 small_vpc.security_groups
    ⊗ (length small_vpc.rules ≤ 128)
    ⊗ All (GoodRule small_vpc.security_groups) small_vpc.rules)
vpc_validate_iff_example = vpc_validate_iff small_vpc

validate-Consistent_example : (Quota.validate default_limits ≡ ok tt) ↔ Consistent default_limits
validate-Consistent_example = validate-Consistent default_limits

validate_ports_iff_example : (validate_ports true gpu_service ≡ ok tt) ↔ (
    (length gpu_service.ports ≤ 16)
    ⊗ All (GoodPort (at_container_ports gpu_service)) gpu_service.ports
    ⊗ Distinct (map (λ port. port.name) gpu_service.ports)
    ⊗ Distinct (map slot gpu_service.ports))
validate_ports_iff_example = validate_ports_iff gpu_service

validate-validate_request_example : validate_request plain_crates gpu_service ≡ ok tt
validate-validate_request_example =
    validate-validate_request plain_crates gpu_service gpu_service_valid

disk_parts-le_example : (1 ≤ 4) × (4 + or_one gpu_service.rootfs_storage_gib < 10)
disk_parts-le_example = disk_parts-le plain_crates true gpu_service 4 refl gpu_service_passes

scale_to_zero-web_example :
    (is_web gpu_service.exposure.endpoint_mode ≡ true)
    × (is_internal gpu_service.exposure.exposure_type ≡ false)
    × (is_forwarded gpu_service.exposure.traffic_mode ≡ true)
    × (one_tcp_port gpu_service.ports ≡ true)
scale_to_zero-web_example =
    scale_to_zero-web plain_crates true gpu_service from_zero refl refl gpu_service_passes
