-- ===== src/Store/Allocation.antt =====
-- `prepare_flash_spec` of crates/heterocloud-store/src/lib.rs: node ports and reservations.
pub mod Ports
pub mod Slots
pub mod Totals
pub mod Again
use ipa_rs_hetero_cloud.Prelude.{
  ℕ, ◌+◌, ◌*◌, ◌%◌, ◌^◌, String, Bool, true, false, not, ◌&&◌, ◌||◌, Option, none, some, List, [],
  ◌∷◌, ◌++◌, map, if◌then◌else◌, ltb, ◌==◌, length, any, is_none, is_some_and, Result, ok, err,
  ◌>>=◌, ◌>>◌, map_err, reject_if, str_eq,
}
use ipa_rs_hetero_cloud.Domain.Vpc.{Uuid}
use ipa_rs_hetero_cloud.Domain.Quota.{FlashQuotaLimits}
use ipa_rs_hetero_cloud.Domain.Flash.{
  FlashPort, FlashSpec, FlashError, is_internal, reserved_replicas,
}
use ipa_rs_hetero_cloud.Domain.Flash.Networks.{Crates}
use ipa_rs_hetero_cloud.Domain.Flash.Ports.{Slot, slot, at_container_ports}
use ipa_rs_hetero_cloud.Domain.Flash.Validate.{validate, validate_request}
use ipa_rs_hetero_cloud.Store.Allocation.Ports.{StoreError, assign_ports}

-- `FlashAllocationRow`, with its specification read. The query leaves out the services that are being
-- deleted, so that no row is one of these.
pub record FlashAllocationRow : Type 0 where
  pub id : Uuid
  pub organization_id : Uuid
  pub spec : FlashSpec

-- A GPU of the inventory: who may use it, if not all.
pub record GpuDevice : Type 0 where
  pub gpu_type : String
  pub is_open : Bool
  pub assigned_users : List Uuid

unfoldable pub accessible : String → Option Uuid → GpuDevice → Bool
accessible gpu_type user_id device =
    str_eq device.gpu_type gpu_type
    && (device.is_open
        || is_some_and (λ user. any (λ assigned. assigned == user) device.assigned_users) user_id)

-- `user_id` is what `principal_user_id` returned.
unfoldable pub validate_flash_gpu_access :
    List GpuDevice → Option Uuid → Option String → Result StoreError (Unit {0})
unfolding accessible
validate_flash_gpu_access devices user_id none = ok tt
validate_flash_gpu_access devices user_id (some gpu_type) =
    reject_if (not (any (accessible gpu_type user_id) devices)) StoreError.gpu_access

-- The sums of one organization, each a `u64`.
pub record Usage : Type 0 where
  pub services : ℕ
  pub replicas : ℕ
  pub cpu_millis : ℕ
  pub memory_mib : ℕ
  pub ephemeral_storage_gib : ℕ

-- Addition and multiplication of `u64` in a release build.
unfoldable pub add_u64 : ℕ → ℕ → ℕ
add_u64 a b = (a + b) % 2 ^ 64

unfoldable pub mul_u64 : ℕ → ℕ → ℕ
mul_u64 a b = (a * b) % 2 ^ 64

-- What one service reserves in all its replicas.
unfoldable pub reserve : FlashSpec → Usage → Usage
unfolding add_u64 mul_u64
reserve spec usage = record {
  services = usage.services;
  replicas = add_u64 usage.replicas (reserved_replicas spec);
  cpu_millis = add_u64 usage.cpu_millis (mul_u64 (reserved_replicas spec) spec.cpu_millis);
  memory_mib = add_u64 usage.memory_mib (mul_u64 (reserved_replicas spec) spec.memory_mib);
  ephemeral_storage_gib =
      add_u64 usage.ephemeral_storage_gib
        (mul_u64 (reserved_replicas spec) spec.ephemeral_storage_gib);
}

abbrev pub one_service : Usage
one_service = record {
  services = 1;
  replicas = 0;
  cpu_millis = 0;
  memory_mib = 0;
  ephemeral_storage_gib = 0;
}

abbrev pub is_excluded : Option Uuid → FlashAllocationRow → Bool
is_excluded excluded row = is_some_and (λ id. id == row.id) excluded

-- A public service and one outside of every VPC hold node ports.
unfoldable pub row_slots : FlashSpec → List Slot
row_slots stored =
    if not (is_internal stored.exposure.exposure_type) || is_none stored.network
    then map slot stored.ports
    else []

-- The ports taken by the other services; the loop over the rows is split in two.
unfoldable pub occupied_ports : Option Uuid → List FlashAllocationRow → List Slot
unfolding row_slots
occupied_ports excluded [] = []
occupied_ports excluded (row ∷ rest) =
    let more = occupied_ports excluded rest in
    if is_excluded excluded row then more else row_slots row.spec ++ more

unfoldable pub add_row : Uuid → Option Uuid → FlashAllocationRow → Usage → Usage
unfolding reserve add_u64
add_row organization_id excluded row usage =
    if is_excluded excluded row || not (row.organization_id == organization_id)
    then usage
    else reserve row.spec (record usage { services = add_u64 usage.services 1 })

unfoldable pub organization_usage : Uuid → Option Uuid → Usage → List FlashAllocationRow → Usage
unfolding add_row
organization_usage organization_id excluded usage [] = usage
organization_usage organization_id excluded usage (row ∷ rest) =
    organization_usage organization_id excluded (add_row organization_id excluded row usage) rest

-- The two tests before the rows are read.
unfoldable pub check_one_service : FlashQuotaLimits → FlashSpec → Result StoreError (Unit {0})
check_one_service quota requested = do
  reject_if (ltb quota.max_replicas_per_service (reserved_replicas requested))
      StoreError.replicas_per_service
  reject_if
      (ltb quota.max_cpu_millis_per_vm requested.cpu_millis
        || (ltb quota.max_memory_mib_per_vm requested.memory_mib
            || ltb quota.max_disk_gib_per_vm requested.ephemeral_storage_gib))
      StoreError.resources_per_vm

-- The tests of the sums.
unfoldable pub check_totals : FlashQuotaLimits → Usage → Result StoreError (Unit {0})
check_totals quota usage = do
  reject_if (ltb quota.max_services usage.services) StoreError.services
  reject_if (ltb quota.max_total_replicas usage.replicas) StoreError.total_replicas
  reject_if (ltb quota.max_total_cpu_millis usage.cpu_millis) StoreError.total_cpu
  reject_if (ltb quota.max_total_memory_mib usage.memory_mib) StoreError.total_memory
  reject_if (ltb quota.max_total_disk_gib usage.ephemeral_storage_gib) StoreError.total_disk

-- What the database holds, and who asks.
pub record Tenant : Type 0 where
  pub organization_id : Uuid
  pub user_id : Option Uuid
  pub excluded_service_id : Option Uuid
  pub devices : List GpuDevice
  pub rows : List FlashAllocationRow
  pub quota : FlashQuotaLimits

abbrev pub ports_of : Option FlashSpec → List FlashPort
ports_of none = []
ports_of (some stored) = stored.ports

abbrev pub with_ports : FlashSpec → List FlashPort → FlashSpec
with_ports requested ports = record requested { ports = ports }

unfoldable pub total_usage : Tenant → FlashSpec → Usage
unfolding organization_usage reserve
total_usage tenant requested =
    reserve requested
      (organization_usage tenant.organization_id tenant.excluded_service_id one_service tenant.rows)

unfoldable pub prepare_flash_spec :
    Crates → Tenant → Option FlashSpec → FlashSpec → Result StoreError FlashSpec
unfolding validate_flash_gpu_access occupied_ports check_one_service check_totals total_usage
prepare_flash_spec crates tenant existing_spec requested = do
  map_err StoreError.flash (validate_request crates requested)
  validate_flash_gpu_access tenant.devices tenant.user_id requested.gpu_type
  check_one_service tenant.quota requested
  ports ←
      assign_ports (at_container_ports requested) (ports_of existing_spec)
        (occupied_ports tenant.excluded_service_id tenant.rows) requested.ports
  check_totals tenant.quota (total_usage tenant requested)
  map_err StoreError.flash (validate crates (with_ports requested ports))
  ok (with_ports requested ports)
