-- ===== src/Store/Allocation/Ports.antt =====
-- How `prepare_flash_spec` of crates/heterocloud-store/src/lib.rs assigns service ports.
use ipa_rs_hetero_cloud.Prelude.{
  ℕ, suc, zero, ◌+◌, Bool, true, false, not, ◌&&◌, Option, none, some, List, [], ◌∷◌, if◌then◌else◌,
  within, Result, ok, err, map_ok, str_eq,
}
use ipa_rs_hetero_cloud.Domain.Vpc.{FlashProtocol}
use ipa_rs_hetero_cloud.Domain.Flash.{FlashPort, FlashError, same_protocol}
use ipa_rs_hetero_cloud.Domain.Flash.Ports.{
  Slot, holds, min_flash_service_port, max_flash_service_port,
}

-- `StoreError`, with the rejections by what they are about.
pub data StoreError : Type 0 where
  flash : FlashError → StoreError
  gpu_access replicas_per_service resources_per_vm no_free_port : StoreError
  services total_replicas total_cpu total_memory total_disk : StoreError

-- `existing_ports.get(&(protocol, name))`, where a later port replaces an earlier one.
unfoldable pub existing_port : List FlashPort → FlashPort → Option ℕ
existing_port [] wanted = none
existing_port (port ∷ rest) wanted =
    let later = existing_port rest wanted in
    elim later [
      | some n ↦ some n
      | none ↦
          if same_protocol port.protocol wanted.protocol && str_eq port.name wanted.name
          then some port.service_port
          else none
    ]

-- The two filters on the port of before.
unfoldable pub preserved : List Slot → FlashProtocol → Option ℕ → Option ℕ
preserved occupied protocol none = none
preserved occupied protocol (some value) =
    if within min_flash_service_port max_flash_service_port value
      && not (holds occupied (protocol, value))
    then some value
    else none

-- The first free port among the next ones, `remaining` of them from `value` on.
unfoldable pub first_free : List Slot → FlashProtocol → ℕ → ℕ → Option ℕ
first_free occupied protocol zero value = none
first_free occupied protocol (suc remaining) value =
    let onward = first_free occupied protocol remaining (1 + value) in
    if holds occupied (protocol, value) then onward else some value

-- 30000..=32767 has 2768 ports.
unfoldable pub assigned_port : List Slot → List FlashPort → FlashPort → Option ℕ
unfolding existing_port preserved first_free
assigned_port occupied existing port =
    elim (preserved occupied port.protocol (existing_port existing port)) [
      | some value ↦ some value
      | none ↦ first_free occupied port.protocol 2768 min_flash_service_port
    ]

abbrev pub with_service_port : FlashPort → ℕ → FlashPort
with_service_port port n = record port { service_port = n }

-- The loop over the ports: at the container's port without a node port, or else at the port
-- assigned, which is then occupied.
unfoldable pub assign_ports :
    Bool → List FlashPort → List Slot → List FlashPort → Result StoreError (List FlashPort)
unfolding assigned_port
assign_ports direct existing occupied [] = ok []
assign_ports true existing occupied (port ∷ rest) =
    map_ok (λ ports. with_service_port port port.container_port ∷ ports)
      (assign_ports true existing occupied rest)
assign_ports false existing occupied (port ∷ rest) = elim (assigned_port occupied existing port) [
  | none ↦ err StoreError.no_free_port
  | some n ↦
      map_ok (λ ports. with_service_port port n ∷ ports)
        (assign_ports false existing ((port.protocol, n) ∷ occupied) rest)
]
