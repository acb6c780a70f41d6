-- ===== src/Audit/Deployed.antt =====
-- From the configuration of pkg/audit/network to the answer of pkg/bpf/c/restricted-network.bpf.c:
-- what the program returns after the manager has filled its maps.
pub mod Startup
pub mod Filled
pub mod Lookups
pub mod Searches
pub mod Verdict
use text.Mathlib.Text.{◌==◌ as str_eq}
use bouheki.Prelude.{
  one_if, zero_if, ℕ, ◌+◌, ◌%◌, ◌^◌, ◌<◌, ◌≡◌, refl, sym, ap, ap₂, ◌∙◌, List, [], ◌∷◌, ◌++◌, String,
  Bool, true, false, ◌&&◌, ◌||◌, not, Option, none, some, if◌then◌else◌, map, ◌==◌, length, take,
  arith, Bool-cases, inl, inr, ℤ, pos, neg,
}
use bouheki.CType.{sizeof}
use bouheki.Buffer.{le_bytes}
use bouheki.Kernel.{Kernel, IsKernel}
use bouheki.Common.{task_comm_len}
use bouheki.Common.Container.{is_container}
use bouheki.Network.Structs.{af_inet, af_inet6, ipv4_trie_key, ipv6_trie_key}
use bouheki.Network.Report.{is_destination_port_zero_v4, is_destination_port_zero_v6}
use bouheki.Network.Connect.{
  Config, Maps, current_gid, current_uid, has_allow_command, has_allow_uid, is_monitor,
  only_container, sa_family, socket_connect,
}
use bouheki.Network.Key.{destination4, destination6, length-destination6}
use bouheki.Network.Policy.{listed_cidr, passed_over, verdict}
use bouheki.Network.Decision.{ret-socket_connect}
use bouheki.Audit.Network.Ip.{AreBytes}
use bouheki.Audit.Network.Trie.{IsTrie, Trie, any, matches}
use bouheki.Audit.Network.Manager.{
  RestrictedNetworkConfig, is_only_container, is_restricted_mode, set_config_map, uint32_len,
}
use bouheki.Audit.Network.Setters.{Libbpf}
use bouheki.Audit.Network.Cidr.{
  ParseCidr, allowed_v4_cidr_list_map_name, allowed_v6_cidr_list_map_name,
  denied_v4_cidr_list_map_name, denied_v6_cidr_list_map_name,
}
use bouheki.Audit.Network.Entries.{AreNames, parsed}
use bouheki.Audit.Network.Ranges.{bits, bytes}
use bouheki.Audit.Network.Written.{loaded-set_config_map}
use bouheki.Audit.Network.Covered.{AreRanges, covers, hit-parsed, search, search-found, search_key}
use bouheki.Audit.Network.Writes.{any-keys_of, any-puts, keys_of, puts, written_to}
use bouheki.Audit.Dns.{Client, Result, returned}
use bouheki.Audit.Dns.Update.{State, set_config_to_map}
use bouheki.Audit.Deployed.Startup.{
  Done, NoDomains, allowed_ranges, denied_ranges, process_writes, set_config_to_map-written,
}
use bouheki.Audit.Deployed.Filled.{
  config_at, filled, has_prefix, maps, names_command, names_id, nothing,
}
use bouheki.Audit.Deployed.Lookups.{
  allowed_command_list-filled, allowed_gid_list-filled, allowed_uid_list-filled, any-keys_of-other,
  any-process_writes, denied_command_list-filled, denied_gid_list-filled, denied_uid_list-filled,
  or_false,
}
use bouheki.Audit.Deployed.Searches.{destination}
use bouheki.Audit.Deployed.Verdict.{
  config_at-set_config_map, deployed, exempt, finds_config, loaded_config, permitted,
  verdict-deployed,
}

-- The answer, given whether only containers are restricted, the mode, and the verdict.
abbrev answer : Kernel → ℕ → Bool → Bool → ℤ → ℤ
answer k address only monitor v =
    if (not (sa_family k address == af_inet) && not (sa_family k address == af_inet6))
      || (((sa_family k address == af_inet6 && is_destination_port_zero_v6 k address)
            || (sa_family k address == af_inet && is_destination_port_zero_v4 k address))
          || (only && not (is_container k)))
    then pos 0
    else if monitor
    then pos 0
    else v

answer-cong :
    (k : Kernel) (address : ℕ)
    → {only only' monitor monitor' : Bool} {v v' : ℤ} → only ≡ only'
    → monitor ≡ monitor'
    → v ≡ v'
    → answer k address only monitor v ≡ answer k address only' monitor' v'
answer-cong k address {only} {only'} {monitor} {monitor'} {v} {v'} eo em ev =
    ap (λ b. answer k address b monitor v) eo
    ∙ (ap (λ b. answer k address only' b v) em ∙ ap (answer k address only' monitor') ev)

-- The mode and the target that the program finds.
only_container-loaded :
    (c : RestrictedNetworkConfig) (found : Bool)
    → only_container (if found then some (loaded_config c) else none)
      ≡ (found && is_only_container c)
only_container-loaded c true = one_if (is_only_container c)
only_container-loaded c false = refl

is_monitor-loaded :
    (c : RestrictedNetworkConfig) (found : Bool)
    → is_monitor (if found then some (loaded_config c) else none)
      ≡ (found && not (is_restricted_mode c))
is_monitor-loaded c true = zero_if (is_restricted_mode c)
is_monitor-loaded c false = refl

-- SetConfigToMap with empty maps, given the bytes behind the key of the configuration.
abbrev pub start :
    {W : Type 0}
    → Libbpf
    → Client W
    → List (List ℕ)
    → ParseCidr
    → List ℕ
    → RestrictedNetworkConfig
    → Bool
    → W
    → Result (Unit {0}) × State W
start lib client servers parse_cidr behind c dns_proxy_enable world =
    set_config_to_map lib client servers parse_cidr behind c dns_proxy_enable
      (record { entry = none; store = nothing; world = world })

abbrev pub maps_of : {W : Type 0} → Trie → State W → Maps
maps_of t s = maps t s.entry s.store

module _ (k : Kernel) (s : IsKernel k) (t : Trie) (trie : IsTrie t) (parse_cidr : ParseCidr)
    (c : RestrictedNetworkConfig) (behind : List ℕ) where
  module _ (address : ℕ) (hd : AreBytes (destination k address)) where
    ret-deployed :
        (uninit sock_ptr : ℕ)
        → AreRanges parse_cidr c.allow_cidrs
        → AreRanges parse_cidr c.deny_cidrs
        → (socket_connect k (deployed k s t trie parse_cidr c behind) uninit sock_ptr address).ret
          ≡ (if exempt k c (finds_config behind) address
              then pos 0
              else if finds_config behind && not (is_restricted_mode c)
              then pos 0
              else if permitted k parse_cidr c (finds_config behind) address
              then pos 0
              else neg k.eperm)
    ret-deployed uninit sock_ptr allowed denied =
        let verdict' = verdict k (deployed k s t trie parse_cidr c behind) address in
        ret-socket_connect k s (deployed k s t trie parse_cidr c behind) uninit sock_ptr address
        ∙ (ap (λ config. answer k address (only_container config) (is_monitor config) verdict')
              (config_at-set_config_map c behind)
            ∙ answer-cong k address (only_container-loaded c (finds_config behind))
                (is_monitor-loaded c (finds_config behind))
                (verdict-deployed k s t trie parse_cidr c behind address hd allowed denied))

-- From the settings to the answer, where the DNS proxy is enabled or no domain is listed, no range
-- of IPv4 addresses is written as one of IPv6, and the destination in memory consists of bytes: once the manager has filled empty maps without
-- an error, the program returns what the settings say. It passes over other families and port 0. If
-- the three bytes of memory that the manager passes on behind its key of one byte are 0, the program
-- finds mode, target and the counts of the lists: it passes over processes of the host if only
-- containers are restricted, and permits everything else in monitor mode. Otherwise it does neither,
-- and the lists of allowed users and commands restrict nobody. Then a destination in a denied range
-- is left to the allowed commands, users and groups, another one has to be in an allowed range, and
-- the user and the command must be allowed, if their lists are counted, and not denied; the numbers
-- of the denied groups are taken for users and deny no group.
pub socket_connect-set_config_to_map :
    {W : Type 0}
    → (k : Kernel) (t : Trie) (lib : Libbpf) (client : Client W) (servers : List (List ℕ))
      (parse_cidr : ParseCidr) (behind : List ℕ) (c : RestrictedNetworkConfig)
      (dns_proxy_enable : Bool) (world : W) (uninit sock_ptr address : ℕ)
    → IsKernel k
    → IsTrie t
    → AreBytes (destination k address)
    → AreRanges parse_cidr c.allow_cidrs
    → AreRanges parse_cidr c.deny_cidrs
    → NoDomains c dns_proxy_enable
    → Done (start lib client servers parse_cidr behind c dns_proxy_enable world)
    → (socket_connect k
        (maps_of t (start lib client servers parse_cidr behind c dns_proxy_enable world).1)
        uninit
        sock_ptr
        address).ret
      ≡ (if exempt k c (finds_config behind) address
          then pos 0
          else if finds_config behind && not (is_restricted_mode c)
          then pos 0
          else if permitted k parse_cidr c (finds_config behind) address
          then pos 0
          else neg k.eperm)
socket_connect-set_config_to_map k t lib client servers parse_cidr behind c dns_proxy_enable world
      uninit sock_ptr address s trie hd allowed denied off done =
    ap (λ state. (socket_connect k (maps_of t state) uninit sock_ptr address).ret)
      (set_config_to_map-written lib client servers parse_cidr behind c dns_proxy_enable
        (record { entry = none; store = nothing; world = world }) off done)
    ∙ ret-deployed k s t trie parse_cidr c behind address hd uninit sock_ptr allowed denied
