-- ===== src/Audit/Network/Manager.antt =====
-- pkg/audit/network/manager.go: the bytes that it writes into the maps of the network program, the
-- value of the configuration map and the keys of the lists. How libbpfgo puts them into a map is
-- not modelled; a map takes as many bytes of a key or a value as its type has.
use text.Mathlib.Text.{◌==◌ as str_eq}
use bouheki.Prelude.{ℕ, ◌%◌, ◌^◌, List, String, Bool, if◌then◌else◌, length, replicate}
use bouheki.Buffer.{le_bytes, write_at}

-- type RestrictedNetworkConfig of pkg/config/config.go, without Enable and the deprecated Interval:
-- Mode, Target, and the lists Allow and Deny of Command, CIDR, Domain, UID and GID. The strings of
-- lists are lists of bytes.
pub record RestrictedNetworkConfig : Type 0 where
  pub mode : String
  pub target : String
  pub allow_commands : List (List ℕ)
  pub deny_commands : List (List ℕ)
  pub allow_cidrs : List (List ℕ)
  pub deny_cidrs : List (List ℕ)
  pub allow_domains : List (List ℕ)
  pub deny_domains : List (List ℕ)
  pub allow_uids : List ℕ
  pub deny_uids : List ℕ
  pub allow_gids : List ℕ
  pub deny_gids : List ℕ

-- IsRestrictedMode("network")
abbrev pub is_restricted_mode : RestrictedNetworkConfig → Bool
is_restricted_mode c = str_eq c.mode "block"

-- IsOnlyContainer("network")
abbrev pub is_only_container : RestrictedNetworkConfig → Bool
is_only_container c = str_eq c.target "container"

abbrev pub mode_monitor : ℕ
mode_monitor = 0

abbrev pub mode_block : ℕ
mode_block = 1

abbrev pub target_host : ℕ
target_host = 0

abbrev pub target_container : ℕ
target_container = 1

abbrev pub map_size : ℕ
map_size = 20

-- binary.LittleEndian.PutUint32(key[start:start+4], x)
abbrev pub put_uint32 : ℕ → ℕ → List ℕ → List ℕ
put_uint32 start x key = write_at start (le_bytes 4 x) key

unfoldable pub set_mode : RestrictedNetworkConfig → List ℕ → List ℕ
set_mode c key =
    if is_restricted_mode c then put_uint32 0 mode_block key else put_uint32 0 mode_monitor key

unfoldable pub set_target : RestrictedNetworkConfig → List ℕ → List ℕ
set_target c key =
    if is_only_container c then put_uint32 4 target_container key else put_uint32 4 target_host key

-- uint32(len(list))
abbrev pub uint32_len : {A : Type 0} → List A → ℕ
uint32_len xs = length xs % 2 ^ 32

-- The value that setConfigMap passes to Update.
unfoldable pub set_config_map : RestrictedNetworkConfig → List ℕ
unfolding set_mode set_target
set_config_map c =
    let key = set_target c (set_mode c (replicate map_size 0)) in
    let key' = put_uint32 8 (uint32_len c.allow_commands) key in
    let key'' = put_uint32 12 (uint32_len c.allow_uids) key' in
    put_uint32 16 (uint32_len c.allow_gids) key''

-- A key of `size` bytes with the prefix length and then the address.
unfoldable pub ipv4_to_key : ℕ → List ℕ → List ℕ
ipv4_to_key prefix_len ip = write_at 4 ip (put_uint32 0 prefix_len (replicate 16 0))

unfoldable pub ipv6_to_key : ℕ → List ℕ → List ℕ
ipv6_to_key prefix_len ip = write_at 4 ip (put_uint32 0 prefix_len (replicate 20 0))

unfoldable pub byte_to_key : List ℕ → List ℕ
byte_to_key b = write_at 0 b (replicate 16 0)

unfoldable pub uint_to_key : ℕ → List ℕ
uint_to_key i = put_uint32 0 (i % 2 ^ 32) (replicate 4 0)
