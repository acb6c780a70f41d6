-- ===== src/Audit/Paths.antt =====
-- What pkg/audit/fileaccess/manager.go and pkg/audit/mount/manager.go share: the loop that writes a
-- list of paths into a map, and the bytes of the configuration. The keys of the maps have four bytes
-- and the values of paths 255, but the key in Go is a variable of one byte and the value a slice of
-- the length of the path: an update takes what follows them in memory, which is a parameter.
pub mod Entered
use text.Mathlib.Text.{◌==◌ as str_eq}
use bouheki.Prelude.{
  ℕ, ◌+◌, ◌%◌, List, [], ◌∷◌, ◌++◌, String, Bool, true, false, Option, none, some, if◌then◌else◌,
  take, replicate,
}
use bouheki.Audit.Network.Ip.{bytes_eq}
use bouheki.Audit.Network.Manager.{put_uint32}
use bouheki.Audit.Dns.{Result, failed, panicked, returned}

-- The entries of a map: the bytes of the key and of the value.
abbrev pub Entries : Type 0
Entries = List (List ℕ × List ℕ)

-- The library libbpfgo: whether it finds a map, and whether an update with a key and a value of a map
-- with these entries succeeds.
pub record MapLib : Type 0 where
  pub get_map : String → Bool
  pub update : Entries → List ℕ → List ℕ → Bool

-- What follows the key and the value of the i-th round in memory.
pub record Behind : Type 0 where
  pub key : ℕ → List ℕ
  pub value : ℕ → List ℕ

-- An update replaces the value of a key that is there.
abbrev pub put_entry : List ℕ → List ℕ → Entries → Entries
put_entry key value [] = (key, value) ∷ []
put_entry key value ((k, v) ∷ entries) =
    let rest = put_entry key value entries in
    if bytes_eq k key then (k, value) ∷ entries else (k, v) ∷ rest

abbrev pub key_size : ℕ
key_size = 4

abbrev pub path_size : ℕ
path_size = 255

-- `for i, path := range paths`; `&value[0]` is out of range for the empty path.
unfoldable pub set_paths :
    MapLib → Behind → ℕ → List (List ℕ) → Entries → Result (Unit {0}) × Entries
set_paths lib behind i [] entries = (returned tt, entries)
set_paths lib behind i ([] ∷ paths) entries = (panicked, entries)
set_paths lib behind i ((b ∷ path) ∷ paths) entries =
    let key = take key_size ((i % 256) ∷ behind.key i) in
    let value = take path_size ((b ∷ path) ++ behind.value i) in
    let rest = set_paths lib behind (i + 1) paths (put_entry key value entries) in
    if lib.update entries key value then rest else (failed, entries)

-- A setter of a list of paths.
unfoldable pub set_path_map :
    MapLib → String → Behind → List (List ℕ) → Entries → Result (Unit {0}) × Entries
set_path_map lib map_name behind paths entries =
    if lib.get_map map_name then set_paths lib behind 0 paths entries else (failed, entries)

-- The settings Mode and Target, which the configurations for files and for mounts have in common.
pub record Restriction : Type 0 where
  pub mode : String
  pub target : String

abbrev pub is_restricted : Restriction → Bool
is_restricted r = str_eq r.mode "block"

abbrev pub only_containers : Restriction → Bool
only_containers r = str_eq r.target "container"

-- The value that setModeAndTarget passes to Update.
unfoldable pub mode_and_target : Restriction → List ℕ
mode_and_target r =
    let key = put_uint32 0 (if is_restricted r then 1 else 0) (replicate 8 0) in
    put_uint32 4 (if only_containers r then 1 else 0) key

-- setModeAndTarget; the key is a variable of one byte again, with what follows it.
unfoldable pub set_mode_and_target :
    MapLib → String → List ℕ → Restriction → Entries → Result (Unit {0}) × Entries
set_mode_and_target lib map_name behind r entries =
    let key = take key_size (0 ∷ behind) in
    if lib.get_map map_name
    then if lib.update entries key (mode_and_target r)
      then (returned tt, put_entry key (mode_and_target r) entries)
      else (failed, entries)
    else (failed, entries)
