-- ===== src/Tests/Deployed.antt =====
-- From concrete configurations to the answers of the programs.
use mathlib.Core.List.Perm
use bouheki.Prelude.{
  ℕ, ◌≡◌, refl, ap, List, [], ◌∷◌, true, false, not, Option, none, some, if◌then◌else◌, inr, pos,
  neg, arith, replicate,
}
use bouheki.Buffer.{from_le_bytes, le_bytes, offset_of}
use bouheki.File as F
use bouheki.Mount as M
use bouheki.Network.Connect.{sa_family, socket_connect}
use bouheki.Audit.Network.Ip.{AreBytes, IpNet, bytes_eq, cidr_mask, to4}
use bouheki.Audit.Network.Trie.{IsTrie, Trie, any, matches}
use bouheki.Audit.Network.Manager.{RestrictedNetworkConfig, is_restricted_mode}
use bouheki.Audit.Network.Setters.{
  Libbpf, set_allowed_command_list, set_allowed_gid_list, set_allowed_uid_list,
  set_denied_command_list, set_denied_gid_list, set_denied_uid_list, set_list, set_process_lists,
  update_all,
}
use bouheki.Audit.Network.Cidr.{
  ParseCidr, allowed_v4_cidr_list_map_name, allowed_v6_cidr_list_map_name, cidr_list_update,
  cidr_to_bpf_map_key, denied_v4_cidr_list_map_name, denied_v6_cidr_list_map_name,
  set_allowed_cidr_list, set_cidr_list, set_denied_cidr_list,
}
use bouheki.Audit.Network.Entries.{denied-AreNames, set_cidr_list-some_invalid}
use bouheki.Audit.Network.Ranges.{IsRange}
use bouheki.Audit.Network.Covered.{AreRanges, search, search-set_cidr_list}
use bouheki.Audit.Dns.{Client, returned}
use bouheki.Audit.Dns.Update.{init_domains, set_config_to_map, update_config_map, init_domain_list}
use bouheki.Audit.Deployed.{maps_of, socket_connect-set_config_to_map, start}
use bouheki.Audit.Deployed.Searches.{destination}
use bouheki.Audit.Deployed.Verdict.{exempt, permitted}
use bouheki.Audit.Deployed.Startup.{Done}
use bouheki.Audit.Paths as P
use bouheki.Audit.Paths.Entered as E
use bouheki.Audit.FileAccess.Manager as FM
use bouheki.Audit.FileAccess.Deployed as FD
use bouheki.Audit.Mount.Manager as MM
use bouheki.Audit.Mount.Deployed as MD
use bouheki.Audit.Deployed.Filled.{nothing}
use bouheki.Tests.Kernel.{
  curl, etc, etc_passwd, fit, in_order, in_order-IsForEach, ipv4_address, kernel, kernel-IsKernel,
}

-- Every map is there, and every update succeeds.
abbrev pub lib : Libbpf
lib = record { get_map = λ name. true; update = λ store name key. true }

-- A trie that answers as documented.
abbrev pub trie : Trie
trie = record { lookup = λ entries key. any (matches key) entries }

pub trie-IsTrie : IsTrie trie
trie-IsTrie = record { finds = λ entries key. refl }

-- "1.187.0.0/16"
abbrev pub range : List ℕ
range = b'1' ∷ b'.' ∷ b'1' ∷ b'8' ∷ b'7' ∷ b'.' ∷ b'0' ∷ b'.' ∷ b'0' ∷ b'/' ∷ b'1' ∷ b'6' ∷ []

abbrev pub net : IpNet
net = record { ip = 1 ∷ 187 ∷ 0 ∷ 0 ∷ []; mask = 255 ∷ 255 ∷ 0 ∷ 0 ∷ [] }

-- A parser that knows this range.
abbrev pub parse_cidr : ParseCidr
parse_cidr text = if bytes_eq text range then some net else none

pub net-IsRange : IsRange false net
unfolding cidr_mask to4
net-IsRange = record {
  is_ip_net = record {
    ones = 16;
    ones_bound = omega arith;
    length-ip = refl;
    ip-AreBytes = (omega arith, (omega arith, (omega arith, (omega arith, tt))));
    mask-cidr_mask = refl;
  };
  family = refl;
}

some-net : (n : IpNet) → Path (Option IpNet) (some net) (some n) → net ≡ n
some-net n e = ap (λ o. elim o as (λ u. IpNet) [ none ↦ net | some z ↦ z ]) e

pub one_range : AreRanges parse_cidr (range ∷ [])
one_range = (λ n e. rw (← some-net n e) (inr net-IsRange), tt)

-- In mode block, curl may connect to the denied range, which holds the address.
abbrev pub config : RestrictedNetworkConfig
config = record {
  mode = "block";
  target = "host";
  allow_commands = curl ∷ [];
  deny_commands = [];
  allow_cidrs = [];
  deny_cidrs = range ∷ [];
  allow_domains = [];
  deny_domains = [];
  allow_uids = [];
  deny_uids = [];
  allow_gids = [];
  deny_gids = [];
}

-- No server answers, and the world has one state.
abbrev pub silent : Client (Unit {0})
silent = record { exchange = λ w name record_type server. (none, w) }

destination_bytes : AreBytes (destination kernel ipv4_address)
unfolding sa_family from_le_bytes le_bytes offset_of
destination_bytes = (omega arith, (omega arith, (omega arith, (omega arith, tt))))

started : Done (start lib silent [] parse_cidr (0 ∷ 0 ∷ 0 ∷ []) config false tt)
unfolding set_config_to_map update_config_map set_allowed_cidr_list set_denied_cidr_list
    set_cidr_list cidr_to_bpf_map_key cidr_list_update init_domain_list set_process_lists set_list
    update_all init_domains set_allowed_command_list set_denied_command_list set_allowed_uid_list
    set_denied_uid_list set_allowed_gid_list set_denied_gid_list
started = refl

socket_connect-set_config_to_map_example :
    (socket_connect kernel
      (maps_of trie (start lib silent [] parse_cidr (0 ∷ 0 ∷ 0 ∷ []) config false tt).1)
      0
      300
      ipv4_address).ret
    ≡ (if exempt kernel config true ipv4_address
        then pos 0
        else if not (is_restricted_mode config)
        then pos 0
        else if permitted kernel parse_cidr config true ipv4_address
        then pos 0
        else neg 1)
socket_connect-set_config_to_map_example =
    socket_connect-set_config_to_map kernel trie lib silent [] parse_cidr (0 ∷ 0 ∷ 0 ∷ []) config
      false tt 0 300 ipv4_address kernel-IsKernel trie-IsTrie destination_bytes tt one_range
      (inr (refl, refl)) started

-- Of the address 1.187.3.4, after the range was written into an empty map.
search-set_cidr_list_example :
    search trie false
      ((set_cidr_list lib denied_v4_cidr_list_map_name denied_v6_cidr_list_map_name parse_cidr
          (range ∷ [])
          nothing).1
        denied_v4_cidr_list_map_name)
      (1 ∷ 187 ∷ 3 ∷ 4 ∷ [])
    ≡ true
unfolding set_cidr_list cidr_to_bpf_map_key cidr_list_update
search-set_cidr_list_example =
    search-set_cidr_list parse_cidr false (1 ∷ 187 ∷ 3 ∷ 4 ∷ []) refl
      (omega arith, (omega arith, (omega arith, (omega arith, tt)))) lib
      denied_v4_cidr_list_map_name denied_v6_cidr_list_map_name denied-AreNames trie trie-IsTrie
      (range ∷ []) nothing one_range refl

-- "10.0.0.8", without a prefix length, behind the range.
set_cidr_list-some_invalid_example :
    (set_cidr_list lib allowed_v4_cidr_list_map_name allowed_v6_cidr_list_map_name parse_cidr
      (range ∷ (b'1' ∷ b'0' ∷ b'.' ∷ b'0' ∷ b'.' ∷ b'0' ∷ b'.' ∷ b'8' ∷ []) ∷ [])
      nothing).0
    ≡ false
set_cidr_list-some_invalid_example =
    set_cidr_list-some_invalid lib allowed_v4_cidr_list_map_name allowed_v6_cidr_list_map_name
      parse_cidr (range ∷ (b'1' ∷ b'0' ∷ b'.' ∷ b'0' ∷ b'.' ∷ b'0' ∷ b'.' ∷ b'8' ∷ []) ∷ []) nothing
      refl

abbrev map_lib : P.MapLib
map_lib = record { get_map = λ name. true; update = λ entries key value. true }

abbrev zeros : P.Behind
zeros = record { key = λ i. replicate 3 0; value = λ i. replicate 255 0 }

abbrev block_on_host : P.Restriction
block_on_host = record { mode = "block"; target = "host" }

-- "/" is allowed, "/etc" is denied.
abbrev file_config : FM.RestrictedFileAccessConfig
file_config = record { restriction = block_on_host; allow = (b'/' ∷ []) ∷ []; deny = etc ∷ [] }

abbrev memory : FM.Memory
memory = record { behind_config = replicate 3 0; behind_allowed = zeros; behind_denied = zeros }

file_done : (FM.set_config_to_map map_lib memory file_config FD.no_entries).0 ≡ returned tt
unfolding FM.set_config_to_map FM.set_mode_target FM.set_allowed_file_access_map
    FM.set_denied_file_access_map P.set_mode_and_target P.set_path_map P.set_paths
file_done = refl

abbrev file_maps : F.Maps
file_maps = record {
  fileopen_bouheki_config_map = λ i.
      FD.some_config
        (E.lookup_value (FM.set_config_to_map map_lib memory file_config FD.no_entries).1.config i);
  allowed_access_files =
      E.seen FD.file_path (FM.set_config_to_map map_lib memory file_config FD.no_entries).1.allowed;
  denied_access_files =
      E.seen FD.file_path (FM.set_config_to_map map_lib memory file_config FD.no_entries).1.denied;
}

restricted_file_open-set_config_to_map_example :
    (F.restricted_file_open kernel in_order file_maps 0).ret ≡ (
      if E.names_path zeros 0 file_config.deny (fit 255 etc_passwd)
      then neg 1
      else if E.names_path zeros 0 file_config.allow (fit 255 etc_passwd)
      then pos 0
      else neg 1)
unfolding from_le_bytes
restricted_file_open-set_config_to_map_example =
    FD.restricted_file_open-set_config_to_map map_lib memory file_config
      (record {
        few_allowed = omega arith;
        few_denied = omega arith;
        allow-ArePaths = ((refl, tt), tt);
        deny-ArePaths = ((refl, (refl, (refl, (refl, tt)))), tt);
      })
      file_done in_order kernel file_maps 0 in_order-IsForEach
      (record { config = λ i. refl; allowed = Perm.refl _; denied = Perm.refl _ })

abbrev mount_settings : MM.RestrictedMountConfig
mount_settings = record { restriction = block_on_host; deny_source_path = etc ∷ [] }

mount_done :
    (MM.set_config_to_map map_lib (replicate 3 0) zeros mount_settings MD.no_entries).0
    ≡ returned tt
unfolding MM.set_config_to_map P.set_mode_and_target P.set_path_map P.set_paths
mount_done = refl

abbrev mount_maps : M.Maps
mount_maps = record {
  mount_bouheki_config_map = λ i. MD.some_config (
      E.lookup_value
        (MM.set_config_to_map map_lib (replicate 3 0) zeros mount_settings MD.no_entries).1.config
        i);
  mount_denied_source_list =
      E.seen MD.file_path
        (MM.set_config_to_map map_lib (replicate 3 0) zeros mount_settings MD.no_entries).1.denied;
}

restricted_mount-set_config_to_map_example :
    (M.restricted_mount kernel in_order mount_maps 0).ret ≡ (
      if E.names_path zeros 0 mount_settings.deny_source_path (M.source_path_of kernel 0)
      then neg 1
      else pos 0)
unfolding M.source_path_of from_le_bytes
restricted_mount-set_config_to_map_example =
    MD.restricted_mount-set_config_to_map map_lib (replicate 3 0) zeros mount_settings (omega arith)
      ((refl, (refl, (refl, (refl, tt)))), tt) mount_done in_order kernel mount_maps 0
      in_order-IsForEach (record { config = λ i. refl; denied = Perm.refl _ })
