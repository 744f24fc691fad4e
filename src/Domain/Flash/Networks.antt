-- ===== src/Domain/Flash/Networks.antt =====
-- Networks and browser authentication in a Flash specification. The crates ipnet and url are
-- parameters.
use ipa_rs_hetero_cloud.Prelude.{
  ℕ, String, Bool, true, false, not, ◌&&◌, ◌||◌, Option, none, some, List, [], ◌∷◌, ltb, ◌==◌,
  within, length, is_empty, any, get_first?, get_last?, is_some, is_none, is_some_and, Result, ok,
  err, ◌>>◌, ◌>>=◌, map_ok, reject_if, chars, bytes, byte_len, is_control, is_whitespace,
  is_ascii_lowercase, is_ascii_digit, is_ascii_alphanumeric, str_eq,
}
use ipa_rs_hetero_cloud.Domain.Flash.{
  FlashOidcAuthentication, FlashEgress, FlashError, is_restricted,
}
use ipa_rs_hetero_cloud.Domain.Vpc.{contains}

-- An `IpNet`: its address family, address and prefix length.
pub record IpNet : Type 0 where
  pub is_v6 : Bool
  pub address : ℕ
  pub prefix_len : ℕ

-- What the code reads of a `url::Url`.
pub record Url : Type 0 where
  pub scheme : String
  pub host_str : Option String
  pub username : String
  pub password : Option String
  pub query : Option String
  pub fragment : Option String

-- `parse::<IpNet>`, `parse::<IpAddr>` with `IpNet::from`, `IpNet::trunc`, `IpNet::contains` and
-- `Url::parse`.
pub record Crates : Type 0 where
  pub parse_net : String → Option IpNet
  pub parse_addr : String → Option IpNet
  pub trunc : IpNet → IpNet
  pub contains_net : IpNet → IpNet → Bool
  pub parse_url : String → Option Url

abbrev pub same_bool : Bool → Bool → Bool
same_bool true b = b
same_bool false b = not b

unfoldable pub same_net : IpNet → IpNet → Bool
same_net a b = same_bool a.is_v6 b.is_v6 && (a.address == b.address && a.prefix_len == b.prefix_len)

-- Whether some text stands twice: a set of the texts is smaller than the list.
unfoldable pub repeats : List String → Bool
unfolding contains
repeats [] = false
repeats (x ∷ xs) = contains xs x || repeats xs

unfoldable pub bad_scope : String → Bool
bad_scope scope =
    is_empty (bytes scope)
    || (ltb 128 (byte_len scope)
        || any (λ b. not (within 0x21 0x7e b) || (b == b'"' || b == 92)) (bytes scope))

unfoldable pub bad_secret_ref : String → Bool
bad_secret_ref secret =
    is_empty (bytes secret)
    || (ltb 63 (byte_len secret)
        || (not (is_some_and is_ascii_alphanumeric (get_first? (bytes secret)))
            || (not (is_some_and is_ascii_alphanumeric (get_last? (bytes secret)))
                || any
                    (λ b. not (is_ascii_lowercase b) && (not (is_ascii_digit b) && not (b == b'-')))
                    (bytes secret))))

-- The second test on the issuer.
unfoldable pub bad_issuer : String → Url → Bool
unfolding is_whitespace is_control
bad_issuer issuer_url issuer =
    ltb 2048 (byte_len issuer_url)
    || (not (str_eq issuer.scheme "https")
        || (is_none issuer.host_str
            || (not (is_empty (chars issuer.username))
                || (is_some issuer.password
                    || (is_some issuer.query
                        || (is_some issuer.fragment
                            || (any is_whitespace (chars issuer_url)
                                || any is_control (chars issuer_url))))))))

unfoldable pub check_issuer : String → Option Url → Result FlashError (Unit {0})
unfolding bad_issuer
check_issuer issuer_url none = err FlashError.issuer_url_parse
check_issuer issuer_url (some issuer) =
    reject_if (bad_issuer issuer_url issuer) FlashError.issuer_url

module _ (crates : Crates) where
  -- `FlashOidcAuthentication::validate`
  unfoldable pub validate_authentication : FlashOidcAuthentication → Result FlashError (Unit {0})
  unfolding check_issuer bad_secret_ref bad_scope repeats is_control
  validate_authentication oidc = do
    check_issuer oidc.issuer_url (crates.parse_url oidc.issuer_url)
    reject_if
        (is_empty (bytes oidc.client_id)
          || (ltb 256 (byte_len oidc.client_id) || any is_control (chars oidc.client_id)))
        FlashError.client_id
    reject_if (bad_secret_ref oidc.client_secret_ref) FlashError.client_secret_ref
    reject_if (ltb 16 (length oidc.scopes) || (any bad_scope oidc.scopes || repeats oidc.scopes))
        FlashError.scopes

  -- `value.is_empty() || value.trim() != value`
  unfoldable pub untrimmed : String → Bool
  unfolding is_whitespace
  untrimmed value =
      is_empty (chars value)
      || (is_some_and is_whitespace (get_first? (chars value))
          || is_some_and is_whitespace (get_last? (chars value)))

  -- A network, or an address as a network of its own.
  unfoldable pub parse_network : String → Option IpNet
  parse_network value = elim (crates.parse_net value) [
    | none ↦ crates.parse_addr value
    | some net ↦ some net
  ]

  unfoldable pub insert_network : List IpNet → Option IpNet → Result FlashError (List IpNet)
  unfolding same_net
  insert_network normalized none = err FlashError.cidr_parse
  insert_network normalized (some net) = do
    reject_if (any (same_net (crates.trunc net)) normalized) FlashError.cidr_twice
    ok (crates.trunc net ∷ normalized)

  -- The loop over the values; `normalized` holds the networks so far.
  unfoldable pub parse_values : List IpNet → List String → Result FlashError (List IpNet)
  unfolding untrimmed parse_network insert_network
  parse_values normalized [] = ok normalized
  parse_values normalized (value ∷ rest) = do
    reject_if (untrimmed value) FlashError.cidr_text
    more ← insert_network normalized (parse_network value)
    parse_values more rest

  -- The networks stand in the order of the insertions, the last one first.
  unfoldable pub parse_flash_cidrs : List String → ℕ → Result FlashError (List IpNet)
  unfolding parse_values
  parse_flash_cidrs values maximum = do
    reject_if (ltb maximum (length values)) FlashError.cidr_count
    parse_values [] values

  unfoldable pub validate_flash_source_cidrs : List String → Result FlashError (Unit {0})
  unfolding parse_flash_cidrs
  validate_flash_source_cidrs values = map_ok (λ nets. tt) (parse_flash_cidrs values 64)

  abbrev pub protected : List String
  protected =
      "::/128" ∷ "::1/128" ∷ "0.0.0.0/8" ∷ "10.0.0.0/8" ∷ "100.64.0.0/10" ∷ "127.0.0.0/8"
      ∷ "169.254.0.0/16" ∷ "172.16.0.0/12" ∷ "192.0.0.0/24" ∷ "192.88.99.0/24" ∷ "192.168.0.0/16"
      ∷ "198.18.0.0/15" ∷ "224.0.0.0/3" ∷ "fc00::/7" ∷ "fe80::/10" ∷ "ff00::/8" ∷ []

  -- `collect::<Result<Vec<_>, _>>`
  unfoldable pub parse_protected : List String → Result FlashError (List IpNet)
  parse_protected [] = ok []
  parse_protected (value ∷ rest) =
      let parsed = parse_protected rest in
      elim (crates.parse_net value) [
        | none ↦ err FlashError.protected_networks
        | some net ↦ map_ok (λ nets. net ∷ nets) parsed
      ]

  unfoldable pub overlaps : IpNet → IpNet → Bool
  overlaps net other = crates.contains_net net other || crates.contains_net other net

  unfoldable pub validate_flash_egress : FlashEgress → Result FlashError (Unit {0})
  unfolding parse_flash_cidrs parse_protected overlaps
  validate_flash_egress egress = do
    allowed ← parse_flash_cidrs egress.allowed_destination_cidrs 64
    denied ← parse_flash_cidrs egress.denied_destination_cidrs 64
    reject_if (not (is_restricted egress.mode) && not (is_empty allowed)) FlashError.egress_mode
    nets ← parse_protected protected
    reject_if (any (λ net. any (overlaps net) nets) allowed) FlashError.protected_overlap
