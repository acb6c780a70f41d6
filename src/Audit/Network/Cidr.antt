-- ===== src/Audit/Network/Cidr.antt =====
-- pkg/audit/network/manager.go: the addresses and ranges as keys of the tries, and the loops that
-- write them. Go's `ParseCIDR` is a parameter.
use bouheki.Prelude.{
  ℕ, List, [], ◌∷◌, String, Bool, true, false, not, Option, none, some, if◌then◌else◌, is_some, map,
}
use bouheki.Audit.Network.Ip.{IpNet, cidr_mask as mask_of_ones, ip_mask, mask_size, to4}
use bouheki.Audit.Network.Manager.{RestrictedNetworkConfig, ipv4_to_key, ipv6_to_key}
use bouheki.Audit.Network.Setters.{Libbpf, Store, and_then, put}

-- type IPAddress
pub record IpAddress : Type 0 where
  pub address : List ℕ
  pub cidr_mask : List ℕ
  pub key : List ℕ

abbrev pub is_v6_address : IpAddress → Bool
is_v6_address i = not (is_some (to4 i.address))

abbrev pub key_of_net : Bool → IpNet → List ℕ
key_of_net is_v6 n =
    if is_v6 then ipv6_to_key (mask_size n.mask) n.ip else ipv4_to_key (mask_size n.mask) n.ip

unfoldable pub ip_address_to_bpf_map_key : IpAddress → IpAddress
ip_address_to_bpf_map_key i =
    let ip : IpNet = record { ip = ip_mask i.address i.cidr_mask; mask = i.cidr_mask } in
    record { address = i.address; cidr_mask = i.cidr_mask; key = key_of_net (is_v6_address i) ip }

abbrev pub allowed_v4_cidr_list_map_name : String
allowed_v4_cidr_list_map_name = "allowed_v4_cidr_list"

abbrev pub allowed_v6_cidr_list_map_name : String
allowed_v6_cidr_list_map_name = "allowed_v6_cidr_list"

abbrev pub denied_v4_cidr_list_map_name : String
denied_v4_cidr_list_map_name = "denied_v4_cidr_list"

abbrev pub denied_v6_cidr_list_map_name : String
denied_v6_cidr_list_map_name = "denied_v6_cidr_list"

-- ParseCIDR: the network, or none for an error.
abbrev pub ParseCidr : Type 0
ParseCidr = List ℕ → Option IpNet

unfoldable pub cidr_to_bpf_map_key : ParseCidr → List ℕ → Option IpAddress
cidr_to_bpf_map_key parse_cidr cidr = elim (parse_cidr cidr) [
  | none ↦ none
  | some n ↦
      some (ip_address_to_bpf_map_key (record { address = n.ip; cidr_mask = n.mask; key = [] }))
]

-- One round of the loop of domainNameToBPFMapKey.
unfoldable pub address_to_bpf_map_key : List ℕ → IpAddress
address_to_bpf_map_key addr =
    let mask = if not (is_some (to4 addr)) then mask_of_ones 128 16 else mask_of_ones 32 4 in
    ip_address_to_bpf_map_key (record { address = addr; cidr_mask = mask; key = [] })

-- It always succeeds.
abbrev pub domain_name_to_bpf_map_key : List (List ℕ) → List IpAddress
domain_name_to_bpf_map_key addresses = map address_to_bpf_map_key addresses

-- Whether it succeeds, and what is written then.
unfoldable pub cidr_list_update : Libbpf → IpAddress → String → Store → Bool × Store
cidr_list_update lib addr map_name store =
    if lib.get_map map_name
    then if lib.update store map_name addr.key
      then (true, put map_name addr.key store)
      else (false, store)
    else (false, store)

-- Into which of two maps an address goes.
abbrev pub family_name : String → String → IpAddress → String
family_name v4_name v6_name addr = if is_v6_address addr then v6_name else v4_name

module _ (lib : Libbpf) (v4_name v6_name : String) where
  -- The loops of setAllowedCIDRList and setDeniedCIDRList, over two maps.
  unfoldable pub set_cidr_list : ParseCidr → List (List ℕ) → Store → Bool × Store
  set_cidr_list parse_cidr [] store = (true, store)
  set_cidr_list parse_cidr (addr ∷ addrs) store = elim (cidr_to_bpf_map_key parse_cidr addr) [
    | none ↦ (false, store)
    | some address ↦
        and_then (cidr_list_update lib address (family_name v4_name v6_name address) store)
          (λ st. set_cidr_list parse_cidr addrs st)
  ]

  -- The loops of updateAllowedFQDNist and updateDeniedFQDNList.
  unfoldable pub update_addresses : List IpAddress → Store → Bool × Store
  update_addresses [] store = (true, store)
  update_addresses (addr ∷ addrs) store =
      and_then (cidr_list_update lib addr (family_name v4_name v6_name addr) store)
        (λ st. update_addresses addrs st)

unfoldable pub set_allowed_cidr_list :
    Libbpf → ParseCidr → RestrictedNetworkConfig → Store → Bool × Store
set_allowed_cidr_list lib parse_cidr c =
    set_cidr_list lib allowed_v4_cidr_list_map_name allowed_v6_cidr_list_map_name parse_cidr
      c.allow_cidrs

unfoldable pub set_denied_cidr_list :
    Libbpf → ParseCidr → RestrictedNetworkConfig → Store → Bool × Store
set_denied_cidr_list lib parse_cidr c =
    set_cidr_list lib denied_v4_cidr_list_map_name denied_v6_cidr_list_map_name parse_cidr
      c.deny_cidrs

-- Given the addresses of the answer.
unfoldable pub update_allowed_fqdn_list : Libbpf → List (List ℕ) → Store → Bool × Store
update_allowed_fqdn_list lib addresses =
    update_addresses lib allowed_v4_cidr_list_map_name allowed_v6_cidr_list_map_name
      (domain_name_to_bpf_map_key addresses)

unfoldable pub update_denied_fqdn_list : Libbpf → List (List ℕ) → Store → Bool × Store
update_denied_fqdn_list lib addresses =
    update_addresses lib denied_v4_cidr_list_map_name denied_v6_cidr_list_map_name
      (domain_name_to_bpf_map_key addresses)
