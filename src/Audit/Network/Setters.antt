-- ===== src/Audit/Network/Setters.antt =====
-- pkg/audit/network/manager.go: the loops that write the lists of commands, users and groups. The
-- library libbpfgo is a parameter: whether it finds a map, and whether an update succeeds, given
-- what is written already.
use text.Mathlib.Text.{◌==◌ as str_eq}
use bouheki.Prelude.{ℕ, List, [], ◌∷◌, String, Bool, true, false, if◌then◌else◌, map}
use bouheki.Audit.Network.Manager.{RestrictedNetworkConfig, byte_to_key, uint_to_key}

-- The keys that were written into each map, the last one first.
abbrev pub Store : Type 0
Store = String → List (List ℕ)

pub record Libbpf : Type 0 where
  pub get_map : String → Bool
  pub update : Store → String → List ℕ → Bool

abbrev pub put : String → List ℕ → Store → Store
put name key store other = if str_eq other name then key ∷ store other else store other

-- The loop of a setter: whether it ended without an error, and what is written then.
unfoldable pub update_all : Libbpf → String → List (List ℕ) → Store → Bool × Store
update_all lib name [] store = (true, store)
update_all lib name (key ∷ keys) store =
    let rest = update_all lib name keys (put name key store) in
    if lib.update store name key then rest else (false, store)

-- A setter: no map, no update.
unfoldable pub set_list : Libbpf → String → List (List ℕ) → Store → Bool × Store
set_list lib name keys store =
    if lib.get_map name then update_all lib name keys store else (false, store)

abbrev pub allowed_uid_list_map_name : String
allowed_uid_list_map_name = "allowed_uid_list"

abbrev pub denied_uid_list_map_name : String
denied_uid_list_map_name = "denied_uid_list"

abbrev pub allowed_gid_list_map_name : String
allowed_gid_list_map_name = "allowed_gid_list"

abbrev pub denied_gid_list_map_name : String
denied_gid_list_map_name = "denied_gid_list"

abbrev pub allowed_command_list_map_name : String
allowed_command_list_map_name = "allowed_command_list"

abbrev pub denied_command_list_map_name : String
denied_command_list_map_name = "denied_command_list"

-- `if err := …; err != nil { return err }`
abbrev pub and_then : Bool × Store → (Store → Bool × Store) → Bool × Store
and_then (false, store) next = (false, store)
and_then (true, store) next = next store

module _ (lib : Libbpf) (c : RestrictedNetworkConfig) where
  unfoldable pub set_allowed_command_list : Store → Bool × Store
  set_allowed_command_list =
      set_list lib allowed_command_list_map_name (map byte_to_key c.allow_commands)

  unfoldable pub set_denied_command_list : Store → Bool × Store
  set_denied_command_list =
      set_list lib denied_command_list_map_name (map byte_to_key c.deny_commands)

  unfoldable pub set_allowed_uid_list : Store → Bool × Store
  set_allowed_uid_list = set_list lib allowed_uid_list_map_name (map uint_to_key c.allow_uids)

  unfoldable pub set_denied_uid_list : Store → Bool × Store
  set_denied_uid_list = set_list lib denied_uid_list_map_name (map uint_to_key c.deny_uids)

  unfoldable pub set_allowed_gid_list : Store → Bool × Store
  set_allowed_gid_list = set_list lib allowed_gid_list_map_name (map uint_to_key c.allow_gids)

  unfoldable pub set_denied_gid_list : Store → Bool × Store
  set_denied_gid_list = set_list lib denied_uid_list_map_name (map uint_to_key c.deny_gids)

  -- SetConfigToMap from the list of allowed commands on.
  unfoldable pub set_process_lists : Store → Bool × Store
  set_process_lists store = and_then (set_allowed_command_list store) (λ st.
      and_then (set_denied_command_list st) (λ st. and_then (set_allowed_uid_list st) (λ st.
        and_then (set_denied_uid_list st)
          (λ st. and_then (set_allowed_gid_list st) set_denied_gid_list))))
