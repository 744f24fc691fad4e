-- ===== src/Domain/Vpc/Groups.antt =====
-- Which VPC specifications and attachments are accepted.
use ipa_rs_hetero_cloud.Prelude.{
  ◌≡◌, refl, sym, ◌↔◌, ◌≢◌, ℕ, ◌≤◌, String, Bool, true, false, not, ◌||◌, Option, none, some, List,
  [], ◌∷◌, arith, ltb, ◌==◌, length, is_empty, is_some_and, All, ok, passes_iff, ◌⨾◌, ◌⊗◌,
  for_each_iff, Distinct, AllNew, AllNew-Distinct, NotIn, any-false_iff, or_false_iff, byte_len,
  str_eq, eq_iff,
}
use ipa_rs_hetero_cloud.Domain.Names.{valid_private_name}
use ipa_rs_hetero_cloud.Domain.Vpc.{
  VpcPeer, security_group, service, all_services, VpcRule, VpcSpec, VpcError, contains, bad_groups,
  validate_groups, validate_peer, validate_rule, validate,
}

abbrev pub ValidNames : List String → Type 0
ValidNames groups = All (λ name. valid_private_name name ≡ true) groups

pub NotIn-iff :
    (names : List String) (name : String) → (contains names name ≡ false) ↔ NotIn name names
unfolding contains
NotIn-iff names name = any-false_iff (λ x y. str_eq y x) (λ x y. turn (eq_iff y x)) name names
  where
    turn : {P : Type 0} {x y : String} → P ↔ (x ≡ y) → P ↔ (y ≡ x)
    turn (split, join) = (λ h. sym (split h), λ h. join (sym h))

bad_groups_iff :
    (seen groups : List String)
    → (bad_groups seen groups ≡ false) ↔ (ValidNames groups ⊗ AllNew seen groups)
unfolding bad_groups
bad_groups_iff seen [] = (λ h. (tt, tt), λ h. refl)
bad_groups_iff seen (name ∷ rest) =
    let (valid, known) = not_false (valid_private_name name) in
    let (new, old) = NotIn-iff seen name in
    let (split, join) = bad_groups_iff (name ∷ seen) rest in
    let (first, first_back) =
      or_false_iff (not (valid_private_name name))
        (contains seen name || bad_groups (name ∷ seen) rest) in
    let (then, then_back) = or_false_iff (contains seen name) (bad_groups (name ∷ seen) rest) in
    (
      λ h.
          let (a, b) = first h in
          let (c, d) = then b in let (e, f) = split d in ((valid a, e), (new c, f)),
      λ ((a, e), (c, f)). first_back (known a, then_back (old c, join (e, f))),
    )
  where
    not_false : (b : Bool) → (not b ≡ false) ↔ (b ≡ true)
    not_false b = ground arith

-- Between one group and the maximum, with valid names, none of them twice.
abbrev pub GoodGroups : ℕ → List String → Type 0
GoodGroups maximum groups =
    ((1 ≤ length groups) × (length groups ≤ maximum)) ⊗ ValidNames groups ⊗ Distinct groups

pub validate_groups_iff :
    (groups : List String) (maximum : ℕ)
    → (validate_groups groups maximum ≡ ok tt) ↔ GoodGroups maximum groups
unfolding validate_groups
validate_groups_iff groups maximum =
    let (split, join) =
      passes_iff VpcError.group_count (counted groups)
      ⨾ passes_iff VpcError.group_names (bad_groups_iff [] groups) in
    let (new, distinct) = AllNew-Distinct groups in
    (λ h. let (a, (b, c)) = split h in (a, (b, new c)), λ (a, (b, c)). join (a, (b, distinct c)))
  where
    counted :
        (xs : List String)
        → ((is_empty xs || ltb maximum (length xs)) ≡ false)
          ↔ ((1 ≤ length xs) × (length xs ≤ maximum))
    counted [] = ground arith
    counted (x ∷ xs) = ground arith

-- The peer is a group of the VPC, a service with an id, or all services.
abbrev pub KnownPeer : List String → VpcPeer → Type 0
KnownPeer groups (security_group name) = contains groups name ≡ true
KnownPeer groups (service id) = id ≢ 0
KnownPeer groups all_services = Unit

validate_peer_iff :
    (groups : List String) (peer : VpcPeer)
    → (validate_peer groups peer ≡ ok tt) ↔ KnownPeer groups peer
unfolding validate_peer
validate_peer_iff groups (security_group name) = passes_iff VpcError.unknown_group (known _)
  where
    known : (b : Bool) → (not b ≡ false) ↔ (b ≡ true)
    known b = ground arith
validate_peer_iff groups (service id) = passes_iff VpcError.nil_service (not_nil id)
  where
    not_nil : (n : ℕ) → ((n == 0) ≡ false) ↔ (n ≢ 0)
    not_nil n = ground arith
validate_peer_iff groups all_services = (λ h. tt, λ h. refl)

abbrev pub EndsBehind : ℕ → Option ℕ → Type 0
EndsBehind port none = Unit
EndsBehind port (some end) = port ≤ end

abbrev pub GoodRule : List String → VpcRule → Type 0
GoodRule groups rule =
    (byte_len rule.description ≤ 256)
    ⊗ ((1 ≤ rule.port) × EndsBehind rule.port rule.end_port)
    ⊗ (KnownPeer groups rule.source ⊗ KnownPeer groups rule.destination ⊗ Unit)

at_most : (top n : ℕ) → (ltb top n ≡ false) ↔ (n ≤ top)
at_most top n = ground arith

validate_rule_iff :
    (groups : List String) (rule : VpcRule)
    → (validate_rule groups rule ≡ ok tt) ↔ GoodRule groups rule
unfolding validate_rule
validate_rule_iff groups rule =
    passes_iff VpcError.rule_description (at_most 256 (byte_len rule.description))
    ⨾ passes_iff VpcError.rule_ports (ordered rule.port rule.end_port)
    ⨾ for_each_iff (validate_peer groups) (validate_peer_iff groups)
        (rule.source ∷ rule.destination ∷ [])
  where
    ordered :
        (port : ℕ) (end_port : Option ℕ)
        → ((port == 0 || is_some_and (λ end. ltb end port) end_port) ≡ false)
          ↔ ((1 ≤ port) × EndsBehind port end_port)
    ordered port none = ground arith
    ordered port (some end) = ground arith

-- A VPC is accepted exactly if its texts are no longer than their bounds and its region is not
-- empty, it has 1 to 32 valid groups with different names and at most 128 rules, and in each rule
-- the ports are in order and both peers are a group of this VPC, a service or all services.
pub vpc_validate_iff :
    (spec : VpcSpec)
    → (validate spec ≡ ok tt) ↔ (
        ((1 ≤ byte_len spec.region) × (byte_len spec.region ≤ 128))
        ⊗ (byte_len spec.description ≤ 2048)
        ⊗ GoodGroups 32 spec.security_groups
        ⊗ (length spec.rules ≤ 128)
        ⊗ All (GoodRule spec.security_groups) spec.rules)
unfolding validate
vpc_validate_iff spec =
    passes_iff VpcError.region (bounded (byte_len spec.region))
    ⨾ passes_iff VpcError.description (at_most 2048 (byte_len spec.description))
    ⨾ validate_groups_iff spec.security_groups 32
    ⨾ passes_iff VpcError.rule_count (at_most 128 (length spec.rules))
    ⨾ for_each_iff (validate_rule spec.security_groups) (validate_rule_iff spec.security_groups)
        spec.rules
  where
    bounded : (n : ℕ) → ((n == 0 || ltb 128 n) ≡ false) ↔ ((1 ≤ n) × (n ≤ 128))
    bounded n = ground arith
