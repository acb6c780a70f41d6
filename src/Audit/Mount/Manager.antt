-- ===== src/Audit/Mount/Manager.antt =====
-- pkg/audit/mount/manager.go: what it writes into the maps of the mount program.
use bouheki.Prelude.{ℕ, List, String}
use bouheki.Audit.Dns.{Result}
use bouheki.Audit.Paths.{Behind, Entries, MapLib, Restriction, set_mode_and_target, set_path_map}

-- type RestrictedMountConfig of pkg/config/config.go, without Enable
pub record RestrictedMountConfig : Type 0 where
  pub restriction : Restriction
  pub deny_source_path : List (List ℕ)

abbrev pub mount_config : String
mount_config = "mount_bouheki_config_map"

abbrev pub mount_denied_source_list_name : String
mount_denied_source_list_name = "mount_denied_source_list"

-- The entries of the two maps.
pub record MountMaps : Type 0 where
  pub config : Entries
  pub denied : Entries

-- The loop of SetConfigToMap, behind setModeAndTarget.
abbrev pub set_denied :
    MapLib
    → Behind
    → RestrictedMountConfig
    → Result (Unit {0}) × MountMaps
    → Result (Unit {0}) × MountMaps
set_denied lib behind c (Result.returned u, m) =
    let r = set_path_map lib mount_denied_source_list_name behind c.deny_source_path m.denied in
    (r.0, record { config = m.config; denied = r.1 })
set_denied lib behind c (Result.failed, m) = (Result.failed, m)
set_denied lib behind c (Result.panicked, m) = (Result.panicked, m)

-- SetConfigToMap, given the bytes behind the key of setModeAndTarget and behind those of the loop.
unfoldable pub set_config_to_map :
    MapLib → List ℕ → Behind → RestrictedMountConfig → MountMaps → Result (Unit {0}) × MountMaps
set_config_to_map lib behind_config behind c m =
    let r = set_mode_and_target lib mount_config behind_config c.restriction m.config in
    set_denied lib behind c (r.0, record { config = r.1; denied = m.denied })
