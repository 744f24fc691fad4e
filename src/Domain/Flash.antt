-- ===== src/Domain/Flash.antt =====
-- `FlashSpec` of crates/heterocloud-domain/src/lib.rs: what a user asks of the Flash provider.
pub mod Networks
pub mod Ports
pub mod Environment
pub mod Validate
pub mod Passes
pub mod Guarantees
use ipa_rs_hetero_cloud.Prelude.{
  ℕ, String, Bool, true, false, Option, none, some, List, [], ◌∷◌, ◌==◌, ◌&&◌,
}
use ipa_rs_hetero_cloud.Domain.Deployment.{DeploymentPolicy, DeploymentError}
use ipa_rs_hetero_cloud.Domain.Vpc.{FlashProtocol, tcp, udp, Uuid, FlashVpcAttachment, VpcError}

pub record FlashPort : Type 0 where
  pub name : String
  pub protocol : FlashProtocol
  pub container_port : ℕ
  pub service_port : ℕ

pub data FlashExposureType : Type 0 where
  internal public : FlashExposureType

pub data FlashTrafficMode : Type 0 where
  forwarded direct : FlashTrafficMode

pub data FlashEndpointMode : Type 0 where
  ip load_balancer web : FlashEndpointMode

pub data FlashEgressMode : Type 0 where
  disabled restricted internet : FlashEgressMode

pub record FlashOidcAuthentication : Type 0 where
  pub issuer_url : String
  pub client_id : String
  pub client_secret_ref : String
  pub scopes : List String

pub record FlashExposure : Type 0 where
  pub exposure_type : FlashExposureType
  pub traffic_mode : FlashTrafficMode
  pub endpoint_mode : FlashEndpointMode
  pub allowed_source_cidrs : List String
  pub denied_source_cidrs : List String
  pub authentication : Option FlashOidcAuthentication

pub record FlashEgress : Type 0 where
  pub mode : FlashEgressMode
  pub allow_same_organization : Bool
  pub allowed_destination_cidrs : List String
  pub denied_destination_cidrs : List String

pub record FlashAutoscaling : Type 0 where
  pub min_replicas : ℕ
  pub max_replicas : ℕ
  pub target_cpu_utilization_percent : Option ℕ
  pub target_memory_utilization_percent : Option ℕ
  pub idle_timeout_seconds : ℕ

-- A `BTreeMap<String, String>`: its entries, with each key once.
abbrev pub Entries : Type 0
Entries = List (String × String)

-- `metadata` is the length of its serialization, and `none` where serde_json has an error.
pub record FlashSpec : Type 0 where
  pub region : String
  pub image : String
  pub deployment : Option DeploymentPolicy
  pub task_role : Option Uuid
  pub replicas : ℕ
  pub stopped : Bool
  pub autoscaling : Option FlashAutoscaling
  pub cpu_millis : ℕ
  pub memory_mib : ℕ
  pub gpu_type : Option String
  pub ephemeral_storage_gib : ℕ
  pub rootfs_storage_gib : Option ℕ
  pub persistent_storage_gib : Option ℕ
  pub restore_from_backup_id : Option Uuid
  pub ports : List FlashPort
  pub exposure : FlashExposure
  pub egress : FlashEgress
  pub network : Option FlashVpcAttachment
  pub env : Entries
  pub secret_env : Entries
  pub secret_files : Entries
  pub command : List String
  pub args : List String
  pub metadata : Option ℕ

-- The messages of `invalid_flash_spec`, by what they are about.
pub data FlashError : Type 0 where
  deployment : DeploymentError → FlashError
  network : VpcError → FlashError
  region image replicas scaling_bounds scaling_to_zero idle_timeout scaling_targets : FlashError
  cpu memory gpu_name gpu_replicas disk rootfs persistent : FlashError
  port_count port_name port_name_twice container_port service_port service_port_twice : FlashError
  internal_direct endpoint_exposure oidc_endpoint web_ports web_cidrs : FlashError
  issuer_url_parse issuer_url client_id client_secret_ref scopes : FlashError
  cidr_count cidr_text cidr_parse cidr_twice : FlashError
  egress_mode protected_networks protected_overlap same_organization : FlashError
  env_count env_name env_value secret_twice secret_count secret_file : FlashError
  reserved_env secret_name env_and_secret : FlashError
  process_count process_value metadata_json metadata_size : FlashError

abbrev pub same_protocol : FlashProtocol → FlashProtocol → Bool
same_protocol tcp tcp = true
same_protocol udp udp = true
same_protocol _ _ = false

abbrev pub is_internal : FlashExposureType → Bool
is_internal internal = true
is_internal public = false

abbrev pub is_forwarded : FlashTrafficMode → Bool
is_forwarded forwarded = true
is_forwarded direct = false

abbrev pub is_web : FlashEndpointMode → Bool
is_web web = true
is_web _ = false

abbrev pub is_ip : FlashEndpointMode → Bool
is_ip ip = true
is_ip _ = false

abbrev pub is_restricted : FlashEgressMode → Bool
is_restricted restricted = true
is_restricted _ = false

-- `FlashSpec::reserved_replicas`
unfoldable pub reserved_replicas : FlashSpec → ℕ
reserved_replicas spec = elim spec.autoscaling [
  | none ↦ spec.replicas
  | some scaling ↦ scaling.max_replicas
]
