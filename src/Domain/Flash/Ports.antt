-- ===== src/Domain/Flash/Ports.antt =====
-- The ports of a Flash specification.
pub mod Assigned
use ipa_rs_hetero_cloud.Prelude.{
  ℕ, String, Bool, true, false, not, ◌&&◌, ◌||◌, Option, none, some, List, [], ◌∷◌, if◌then◌else◌,
  ltb, leb, ◌==◌, within, length, any, is_some, Result, ok, err, ◌>>◌, reject_if,
}
use ipa_rs_hetero_cloud.Domain.Names.{valid_flash_port_name}
use ipa_rs_hetero_cloud.Domain.Vpc.{FlashProtocol, contains}
use ipa_rs_hetero_cloud.Domain.Flash.{FlashPort, FlashSpec, FlashError, same_protocol, is_internal}

abbrev pub min_flash_service_port : ℕ
min_flash_service_port = 30000

abbrev pub max_flash_service_port : ℕ
max_flash_service_port = 32767

-- A port of the nodes, which one service holds.
abbrev pub Slot : Type 0
Slot = FlashProtocol × ℕ

abbrev pub slot : FlashPort → Slot
slot port = (port.protocol, port.service_port)

unfoldable pub same_slot : Slot → Slot → Bool
same_slot a b = same_protocol a.0 b.0 && a.1 == b.1

-- `set.contains(&(protocol, port))`
unfoldable pub holds : List Slot → Slot → Bool
unfolding same_slot
holds slots s = any (same_slot s) slots

-- A service in a VPC that is not public is reached at its container ports.
unfoldable pub at_container_ports : FlashSpec → Bool
at_container_ports spec = is_some spec.network && is_internal spec.exposure.exposure_type

unfoldable pub unassigned : Bool → FlashPort → Bool
unassigned direct port =
    if direct
    then not (port.service_port == port.container_port)
    else not (within min_flash_service_port max_flash_service_port port.service_port)

-- The loop over the ports, with the names and the slots so far.
unfoldable pub check_ports :
    Bool → Bool → List String → List Slot → List FlashPort → Result FlashError (Unit {0})
unfolding contains holds unassigned
check_ports assigned direct names slots [] = ok tt
check_ports assigned direct names slots (port ∷ rest) = do
  reject_if (not (valid_flash_port_name port.name)) FlashError.port_name
  reject_if (contains names port.name) FlashError.port_name_twice
  reject_if (port.container_port == 0) FlashError.container_port
  reject_if (assigned && unassigned direct port) FlashError.service_port
  reject_if (assigned && holds slots (slot port)) FlashError.service_port_twice
  check_ports assigned direct (port.name ∷ names) (slot port ∷ slots) rest

unfoldable pub validate_ports : Bool → FlashSpec → Result FlashError (Unit {0})
unfolding check_ports at_container_ports
validate_ports assigned spec = do
  reject_if (ltb 16 (length spec.ports)) FlashError.port_count
  check_ports assigned (at_container_ports spec) [] [] spec.ports
