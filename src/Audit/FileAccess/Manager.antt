-- ===== src/Audit/FileAccess/Manager.antt =====
-- pkg/audit/fileaccess/manager.go: what it writes into the maps of the file program.
use bouheki.Prelude.{ℕ, List, String}
use bouheki.Audit.Dns.{Result}
use bouheki.Audit.Paths.{Behind, Entries, MapLib, Restriction, set_mode_and_target, set_path_map}

-- type RestrictedFileAccessConfig of pkg/config/config.go, without Enable
pub record RestrictedFileAccessConfig : Type 0 where
  pub restriction : Restriction
  pub allow : List (List ℕ)
  pub deny : List (List ℕ)

abbrev pub fileaccess_config : String
fileaccess_config = "fileopen_bouheki_config_map"

abbrev pub allowed_files_map_name : String
allowed_files_map_name = "allowed_access_files"

abbrev pub denied_files_map_name : String
denied_files_map_name = "denied_access_files"

-- The entries of the three maps.
pub record FileMaps : Type 0 where
  pub config : Entries
  pub allowed : Entries
  pub denied : Entries

-- The bytes that follow the variables of the three setters in memory.
pub record Memory : Type 0 where
  pub behind_config : List ℕ
  pub behind_allowed : Behind
  pub behind_denied : Behind

abbrev pub next_setter :
    Result (Unit {0}) × FileMaps
    → (FileMaps → Result (Unit {0}) × FileMaps)
    → Result (Unit {0}) × FileMaps
next_setter (Result.returned u, m) next = next m
next_setter (Result.failed, m) next = (Result.failed, m)
next_setter (Result.panicked, m) next = (Result.panicked, m)

module _ (lib : MapLib) (memory : Memory) (c : RestrictedFileAccessConfig) where
  unfoldable pub set_mode_target : FileMaps → Result (Unit {0}) × FileMaps
  set_mode_target m =
      let r =
        set_mode_and_target lib fileaccess_config memory.behind_config c.restriction m.config in
      (r.0, record { config = r.1; allowed = m.allowed; denied = m.denied })

  unfoldable pub set_allowed_file_access_map : FileMaps → Result (Unit {0}) × FileMaps
  set_allowed_file_access_map m =
      let r = set_path_map lib allowed_files_map_name memory.behind_allowed c.allow m.allowed in
      (r.0, record { config = m.config; allowed = r.1; denied = m.denied })

  unfoldable pub set_denied_file_access_map : FileMaps → Result (Unit {0}) × FileMaps
  set_denied_file_access_map m =
      let r = set_path_map lib denied_files_map_name memory.behind_denied c.deny m.denied in
      (r.0, record { config = m.config; allowed = m.allowed; denied = r.1 })

  -- SetConfigToMap
  unfoldable pub set_config_to_map : FileMaps → Result (Unit {0}) × FileMaps
  set_config_to_map m =
      next_setter (set_mode_target m)
        (λ m. next_setter (set_allowed_file_access_map m) set_denied_file_access_map)
