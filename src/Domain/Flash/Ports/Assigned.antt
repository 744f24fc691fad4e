-- ===== src/Domain/Flash/Ports/Assigned.antt =====
-- Which lists of ports are accepted.
use ipa_rs_hetero_cloud.Prelude.{
  ◌≡◌, refl, ap, ◌↔◌, ℕ, ◌≤◌, String, Bool, true, false, not, List, [], ◌∷◌, map, arith, ltb, ◌==◌,
  length, All, ok, passes_iff, ◌⨾◌, ◌⊗◌, Distinct, AllNew, AllNew-Distinct, NotIn, any-false_iff,
  ==_iff, and_iff,
}
use ipa_rs_hetero_cloud.Domain.Names.{valid_flash_port_name}
use ipa_rs_hetero_cloud.Domain.Vpc.{FlashProtocol, tcp, udp}
use ipa_rs_hetero_cloud.Domain.Vpc.Groups.{NotIn-iff}
use ipa_rs_hetero_cloud.Domain.Flash.{FlashPort, FlashSpec, FlashError, same_protocol}
use ipa_rs_hetero_cloud.Domain.Flash.Ports.{
  Slot, slot, same_slot, holds, at_container_ports, unassigned, check_ports, validate_ports,
}

pub same_protocol_iff : (p q : FlashProtocol) → (same_protocol p q ≡ true) ↔ (p ≡ q)
same_protocol_iff tcp tcp = (λ h. refl, λ h. refl)
same_protocol_iff udp udp = (λ h. refl, λ h. refl)
same_protocol_iff tcp udp = (λ h. cc, λ h. cc)
same_protocol_iff udp tcp = (λ h. cc, λ h. cc)

pub same_slot_iff : (a b : Slot) → (same_slot a b ≡ true) ↔ (a ≡ b)
unfolding same_slot
same_slot_iff (p, m) (q, n) =
    let (read, tested) = same_protocol_iff p q in
    let (equal, passes) = ==_iff m n in
    let (split, join) = and_iff (same_protocol p q) (m == n) in
    (
      λ h. let (a, b) = split h in slot_path (read a) (equal b),
      λ h. join (tested (ap (λ s. s.0) h), passes (ap (λ s. s.1) h)),
    )
  where
    slot_path : {a b : Slot} → a.0 ≡ b.0 → a.1 ≡ b.1 → a ≡ b
    slot_path protocol port = cc

-- A set of slots has none that a list of them has not.
pub holds_iff : (slots : List Slot) (s : Slot) → (holds slots s ≡ false) ↔ NotIn s slots
unfolding holds
holds_iff slots s = any-false_iff same_slot same_slot_iff s slots

-- A named port with a number inside, whose outer number is the container's or in the range.
abbrev pub GoodPort : Bool → FlashPort → Type 0
GoodPort direct port =
    (valid_flash_port_name port.name ≡ true)
    ⊗ ((port.container_port == 0) ≡ false)
    ⊗ (unassigned direct port ≡ false)

-- What is accepted behind the names and the slots so far.
abbrev pub Accepted : Bool → List String → List Slot → List FlashPort → Type 0
Accepted direct names slots ports =
    All (GoodPort direct) ports
    ⊗ AllNew names (map (λ port. port.name) ports)
    ⊗ AllNew slots (map slot ports)

not-false_iff : (b : Bool) → (not b ≡ false) ↔ (b ≡ true)
not-false_iff b = ground arith

itself : (b : Bool) → (b ≡ false) ↔ (b ≡ false)
itself b = (λ h. h, λ h. h)

check_ports_iff :
    (direct : Bool) (names : List String) (slots : List Slot) (ports : List FlashPort)
    → (check_ports true direct names slots ports ≡ ok tt) ↔ Accepted direct names slots ports
unfolding check_ports
check_ports_iff direct names slots [] = (λ h. (tt, (tt, tt)), λ h. refl)
check_ports_iff direct names slots (port ∷ rest) =
    let (split, join) =
      passes_iff FlashError.port_name (not-false_iff (valid_flash_port_name port.name))
      ⨾ passes_iff FlashError.port_name_twice (NotIn-iff names port.name)
      ⨾ passes_iff FlashError.container_port (itself (port.container_port == 0))
      ⨾ passes_iff FlashError.service_port (itself (unassigned direct port))
      ⨾ passes_iff FlashError.service_port_twice (holds_iff slots (slot port))
      ⨾ check_ports_iff direct (port.name ∷ names) (slot port ∷ slots) rest in
    (
      λ h.
          let (a, (b, (c, (d, (e, (f, (g, i))))))) = split h in
          (((a, (c, d)), f), ((b, g), (e, i))),
      λ (((a, (c, d)), f), ((b, g), (e, i))). join (a, (b, (c, (d, (e, (f, (g, i))))))),
    )

-- The ports of a stored specification are accepted exactly if there are at most 16, each has a
-- valid name, a container port and an assigned service port, no two have the same name, and no
-- two have the same service port and protocol.
pub validate_ports_iff :
    (spec : FlashSpec)
    → (validate_ports true spec ≡ ok tt) ↔ (
        (length spec.ports ≤ 16)
        ⊗ All (GoodPort (at_container_ports spec)) spec.ports
        ⊗ Distinct (map (λ port. port.name) spec.ports)
        ⊗ Distinct (map slot spec.ports))
unfolding validate_ports
validate_ports_iff spec =
    let (split, join) =
      passes_iff FlashError.port_count (at_most 16 (length spec.ports))
      ⨾ check_ports_iff (at_container_ports spec) [] [] spec.ports in
    let (names, new_names) = AllNew-Distinct (map (λ port. port.name) spec.ports) in
    let (slots, new_slots) = AllNew-Distinct (map slot spec.ports) in
    (
      λ h. let (a, (b, (c, d))) = split h in (a, (b, (names c, slots d))),
      λ (a, (b, (c, d))). join (a, (b, (new_names c, new_slots d))),
    )
  where
    at_most : (top n : ℕ) → (ltb top n ≡ false) ↔ (n ≤ top)
    at_most top n = ground arith

-- What is accepted with assigned ports is accepted without.
pub check_ports-unassigned :
    (direct : Bool) (names : List String) (slots : List Slot) (ports : List FlashPort)
    → check_ports true direct names slots ports ≡ ok tt
    → check_ports false direct names slots ports ≡ ok tt
unfolding check_ports
check_ports-unassigned direct names slots [] h = refl
check_ports-unassigned direct names slots (port ∷ rest) h =
    ground (arith, check_ports-unassigned direct (port.name ∷ names) (slot port ∷ slots) rest)
