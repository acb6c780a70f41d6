-- ===== src/Tests/Manager.antt =====
-- The bytes that the manager of the network audit writes, for a concrete configuration.
use bouheki.Prelude.{true, ℕ, ◌≡◌, refl, List, [], ◌∷◌, take, arith}
use bouheki.CType.{sizeof}
use bouheki.Audit.Network.Manager.{RestrictedNetworkConfig, byte_to_key, set_config_map}
use bouheki.Audit.Network.Written.{
  byte_to_key-current_comm, loaded, loaded-set_config_map, network_bouheki_config,
}
use bouheki.Audit.Network.Setters.{Libbpf, Store, denied_gid_list_map_name, set_process_lists}
use bouheki.Audit.Network.Groups.{set_process_lists-denied_gid_list}
use bouheki.Tests.Kernel.{curl, kernel}

-- mode block for containers, with two allowed commands and a group
abbrev config : RestrictedNetworkConfig
config = record {
  mode = "block";
  target = "container";
  allow_commands = curl ∷ (b'w' ∷ b'g' ∷ b'e' ∷ b't' ∷ []) ∷ [];
  deny_commands = [];
  allow_cidrs = [];
  deny_cidrs = [];
  allow_domains = [];
  deny_domains = [];
  allow_uids = [];
  deny_uids = [];
  allow_gids = 1000 ∷ [];
  deny_gids = 100 ∷ [];
}

loaded-set_config_map_example :
    loaded (take (sizeof network_bouheki_config) (set_config_map config))
    ≡ record { mode = 1; target = 1; has_allow_command = 2; has_allow_uid = 0 }
loaded-set_config_map_example = loaded-set_config_map config

-- "systemd-resolved", of 16 bytes
abbrev resolved : List ℕ
resolved =
    b's' ∷ b'y' ∷ b's' ∷ b't' ∷ b'e' ∷ b'm' ∷ b'd' ∷ b'-' ∷ b'r' ∷ b'e' ∷ b's' ∷ b'o' ∷ b'l' ∷ b'v'
    ∷ b'e' ∷ b'd' ∷ []

byte_to_key-current_comm_example : ¬ (byte_to_key resolved ≡ kernel.current_comm 16)
byte_to_key-current_comm_example =
    byte_to_key-current_comm kernel resolved refl (omega arith) (λ nul. omega arith)

-- Every map is there, and every update succeeds.
abbrev lib : Libbpf
lib = record { get_map = λ name. true; update = λ store name key. true }

abbrev nothing : Store
nothing = λ name. []

set_process_lists-denied_gid_list_example :
    (set_process_lists lib config nothing).1 denied_gid_list_map_name ≡ []
set_process_lists-denied_gid_list_example = set_process_lists-denied_gid_list lib config nothing
