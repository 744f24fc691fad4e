-- ===== src/Domain/Vpc.antt =====
-- crates/heterocloud-domain/src/vpc.rs
pub mod Groups
use ipa_rs_hetero_cloud.Prelude.{
  ℕ, String, Bool, true, false, not, ◌&&◌, ◌||◌, Option, none, some, List, [], ◌∷◌, ltb, ◌==◌,
  length, is_empty, any, is_some_and, Result, ok, err, ◌>>◌, reject_if, for_each, byte_len, str_eq,
}
use ipa_rs_hetero_cloud.Domain.Names.{valid_private_name}

pub data FlashProtocol : Type 0 where
  tcp udp : FlashProtocol

-- A `Uuid` is its 128-bit number; `is_nil` tests for zero.
abbrev pub Uuid : Type 0
Uuid = ℕ

abbrev pub is_nil : Uuid → Bool
is_nil id = id == 0

pub data VpcPeer : Type 0 where
  security_group : String → VpcPeer
  service : Uuid → VpcPeer
  all_services : VpcPeer

pub record VpcRule : Type 0 where
  pub description : String
  pub source : VpcPeer
  pub destination : VpcPeer
  pub protocol : FlashProtocol
  pub port : ℕ
  pub end_port : Option ℕ

-- `nat` is the one field of `VpcNat`.
pub record VpcSpec : Type 0 where
  pub region : String
  pub description : String
  pub nat : Bool
  pub security_groups : List String
  pub rules : List VpcRule

pub record FlashVpcAttachment : Type 0 where
  pub vpc_id : Uuid
  pub security_groups : List String
  pub private_name : Option String

pub data VpcError : Type 0 where
  region description group_count group_names rule_count rule_description rule_ports : VpcError
  unknown_group nil_service nil_vpc private_name : VpcError

-- `security_groups.contains(name)`
unfoldable pub contains : List String → String → Bool
contains names name = any (λ n. str_eq n name) names

-- `groups.iter().any(|name| !valid_private_name(name) || !seen.insert(name))`
unfoldable pub bad_groups : List String → List String → Bool
unfolding contains
bad_groups seen [] = false
bad_groups seen (name ∷ rest) =
    not (valid_private_name name) || (contains seen name || bad_groups (name ∷ seen) rest)

unfoldable pub validate_groups : List String → ℕ → Result VpcError (Unit {0})
unfolding bad_groups
validate_groups groups maximum = do
  reject_if (is_empty groups || ltb maximum (length groups)) group_count
  reject_if (bad_groups [] groups) group_names

unfoldable pub validate_peer : List String → VpcPeer → Result VpcError (Unit {0})
unfolding contains
validate_peer groups (security_group name) = reject_if (not (contains groups name)) unknown_group
validate_peer groups (service id) = reject_if (is_nil id) nil_service
validate_peer groups all_services = ok tt

-- The body of the loop over the rules.
unfoldable pub validate_rule : List String → VpcRule → Result VpcError (Unit {0})
unfolding validate_peer
validate_rule groups rule = do
  reject_if (ltb 256 (byte_len rule.description)) rule_description
  reject_if (rule.port == 0 || is_some_and (λ end. ltb end rule.port) rule.end_port) rule_ports
  for_each (validate_peer groups) (rule.source ∷ rule.destination ∷ [])

-- `VpcSpec::validate`
unfoldable pub validate : VpcSpec → Result VpcError (Unit {0})
unfolding validate_groups validate_rule
validate spec = do
  reject_if (byte_len spec.region == 0 || ltb 128 (byte_len spec.region)) VpcError.region
  reject_if (ltb 2048 (byte_len spec.description)) VpcError.description
  validate_groups spec.security_groups 32
  reject_if (ltb 128 (length spec.rules)) rule_count
  for_each (validate_rule spec.security_groups) spec.rules

-- `FlashVpcAttachment::validate`
unfoldable pub validate_attachment : FlashVpcAttachment → Result VpcError (Unit {0})
unfolding validate_groups
validate_attachment network = do
  reject_if (is_nil network.vpc_id) nil_vpc
  validate_groups network.security_groups 8
  reject_if (is_some_and (λ name. not (valid_private_name name)) network.private_name)
      VpcError.private_name
