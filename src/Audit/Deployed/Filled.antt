-- ===== src/Audit/Deployed/Filled.antt =====
-- The maps of the network program, as it sees them after pkg/audit/network/manager.go has filled
-- them: a map takes as many bytes of a key or a value as its type has.
use bouheki.Prelude.{
  ℕ, ◌%◌, ◌^◌, List, [], String, Bool, Option, none, some, if◌then◌else◌, ◌==◌, map, take,
}
use bouheki.CType.{CType, sizeof}
use bouheki.Buffer.{le_bytes}
use bouheki.Network.Structs.{
  allowed_command_key, allowed_gid_key, allowed_uid_key, denied_command_key, denied_gid_key,
  denied_uid_key, ipv4_trie_key, ipv6_trie_key,
}
use bouheki.Network.Connect.{Config, Maps}
use bouheki.Audit.Network.Ip.{bytes_eq}
use bouheki.Audit.Network.Trie.{Trie, any}
use bouheki.Audit.Network.Manager.{RestrictedNetworkConfig, byte_to_key}
use bouheki.Audit.Network.Setters.{
  Store, allowed_command_list_map_name, allowed_gid_list_map_name, allowed_uid_list_map_name,
  denied_command_list_map_name, denied_gid_list_map_name, denied_uid_list_map_name,
}
use bouheki.Audit.Network.Cidr.{
  ParseCidr, allowed_v4_cidr_list_map_name, allowed_v6_cidr_list_map_name,
  denied_v4_cidr_list_map_name, denied_v6_cidr_list_map_name,
}
use bouheki.Audit.Network.Written.{loaded, network_bouheki_config}
use bouheki.Audit.Network.Writes.{puts}
use bouheki.Audit.Deployed.Startup.{allowed_ranges, denied_ranges, process_writes}

-- A lookup in a hash map, given the type of its keys.
abbrev pub has_key : Store → String → CType → List ℕ → Bool
has_key store name t key = any (λ entry. bytes_eq key (take (sizeof t) entry)) (store name)

-- A lookup in a trie.
abbrev pub has_prefix : Trie → Store → String → CType → List ℕ → Bool
has_prefix t store name key_type key = t.lookup (map (take (sizeof key_type)) (store name)) key

-- A lookup in the map of the configuration.
abbrev pub config_at : Option (List ℕ × List ℕ) → ℕ → Option Config
config_at none i = none
config_at (some (key, value)) i =
    if bytes_eq key (le_bytes 4 i)
    then some (loaded (take (sizeof network_bouheki_config) value))
    else none

abbrev pub maps : Trie → Option (List ℕ × List ℕ) → Store → Maps
maps t entry store = record {
  network_bouheki_config_map = config_at entry;
  allowed_command_list = has_key store allowed_command_list_map_name allowed_command_key;
  denied_command_list = has_key store denied_command_list_map_name denied_command_key;
  allowed_uid_list =
      λ uid. has_key store allowed_uid_list_map_name allowed_uid_key (le_bytes 4 uid);
  denied_uid_list = λ uid. has_key store denied_uid_list_map_name denied_uid_key (le_bytes 4 uid);
  allowed_gid_list =
      λ gid. has_key store allowed_gid_list_map_name allowed_gid_key (le_bytes 4 gid);
  denied_gid_list = λ gid. has_key store denied_gid_list_map_name denied_gid_key (le_bytes 4 gid);
  denied_v4_cidr_list = has_prefix t store denied_v4_cidr_list_map_name ipv4_trie_key;
  denied_v6_cidr_list = has_prefix t store denied_v6_cidr_list_map_name ipv6_trie_key;
  allowed_v4_cidr_list = has_prefix t store allowed_v4_cidr_list_map_name ipv4_trie_key;
  allowed_v6_cidr_list = has_prefix t store allowed_v6_cidr_list_map_name ipv6_trie_key;
}

-- Before the start the maps are empty.
abbrev pub nothing : Store
nothing = λ name. []

abbrev pub filled : ParseCidr → RestrictedNetworkConfig → Store
filled parse_cidr c =
    puts (process_writes c)
      (puts (denied_ranges parse_cidr c) (puts (allowed_ranges parse_cidr c) nothing))

-- The command is one of the names, cut or padded to 16 bytes.
abbrev pub names_command : List ℕ → List (List ℕ) → Bool
names_command comm names = any (λ name. bytes_eq comm (byte_to_key name)) names

-- The user or group is one of the numbers, modulo 2 ^ 32.
abbrev pub names_id : ℕ → List ℕ → Bool
names_id i ids = any (λ j. i == j % 2 ^ 32) ids
