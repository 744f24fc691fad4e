-- ===== src/Store/Allocation/Again.antt =====
-- An update that names the same ports keeps their service ports.
use ipa_rs_hetero_cloud.Prelude.{◌≡◌, Bool, false, ◌&&◌, some, List, [], ◌∷◌, All, str_eq}
use ipa_rs_hetero_cloud.Domain.Flash.{FlashPort, same_protocol}
use ipa_rs_hetero_cloud.Store.Allocation.Ports.{existing_port}

-- The protocol and the name by which a port is known.
abbrev pub same_key : FlashPort → FlashPort → Bool
same_key a b = same_protocol a.protocol b.protocol && str_eq a.name b.name

abbrev pub DistinctKeys : List FlashPort → Type 0
DistinctKeys [] = Unit
DistinctKeys (port ∷ rest) = All (λ other. same_key other port ≡ false) rest × DistinctKeys rest

-- The map of the service ports knows this port.
abbrev Knows : List FlashPort → FlashPort → Type 0
Knows existing port = existing_port existing port ≡ some port.service_port
