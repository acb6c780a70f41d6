-- ===== src/Audit/FileAccess/Deployed.antt =====
-- From the configuration of pkg/audit/fileaccess to the answer of pkg/bpf/c/restricted-file.bpf.c.
use mathlib.Core.List.{Perm}
use bouheki.Prelude.{
  one_if, zero_if, ℕ, ◌≤◌, ◌≡◌, refl, sym, ap, ◌∙◌, List, [], Bool, true, false, ◌&&◌, not,
  if◌then◌else◌, length, Option, none, some, is_negative, ℤ, pos, neg,
}
use bouheki.Buffer.{from_le_bytes, read_at}
use bouheki.Kernel.{Kernel, ForEach, IsForEach}
use bouheki.Kernel.Search.{any_value-Perm}
use bouheki.Common.Container.{is_host_mntns}
use bouheki.File.{
  CallbackCtx, Config, FilePath, Maps, is_monitor, only_container, restricted_file_open,
}
use bouheki.File.Policy.{listed, names, opened, ret-restricted_file_open}
use bouheki.Audit.Dns.{Result, failed, panicked, returned}
use bouheki.Audit.Paths.{
  Behind, MapLib, Restriction, is_restricted, mode_and_target, only_containers,
}
use bouheki.Audit.Paths.Entered.{
  ArePaths, any_value-entered, entered, finds_config, lookup_value,
  lookup_value-set_mode_and_target, mode_and_target-read, names_path, seen, set_path_map-entered,
}
use bouheki.Audit.FileAccess.Manager.{
  allowed_files_map_name, denied_files_map_name, fileaccess_config, next_setter, FileMaps, Memory,
  RestrictedFileAccessConfig, set_allowed_file_access_map, set_config_to_map,
  set_denied_file_access_map, set_mode_target,
}

-- The value of the configuration map as the program reads it.
abbrev pub config_of : List ℕ → Config
config_of value = record {
  mode = from_le_bytes (read_at 0 4 value);
  target = from_le_bytes (read_at 4 4 value);
}

abbrev pub some_config : Option (List ℕ) → Option Config
some_config none = none
some_config (some value) = some (config_of value)

abbrev pub file_path : List ℕ → FilePath
file_path value = record { path = value }

-- The maps are those of the program, whatever the order of the entries.
pub record AreMaps (m : FileMaps) (maps : Maps) : Type 0 where
  pub config : (i : ℕ) → maps.fileopen_bouheki_config_map i ≡ some_config (lookup_value m.config i)
  pub allowed : Perm (seen file_path m.allowed) maps.allowed_access_files
  pub denied : Perm (seen file_path m.denied) maps.denied_access_files

abbrev pub no_entries : FileMaps
no_entries = record { config = []; allowed = []; denied = [] }

abbrev loaded : Restriction → Config
loaded r = record {
  mode = if is_restricted r then 1 else 0;
  target = if only_containers r then 1 else 0;
}

answer-cong :
    (no_path host : Bool) (e : ℤ)
    → {only only' monitor monitor' denied denied' allowed allowed' : Bool} → only ≡ only'
    → monitor ≡ monitor'
    → denied ≡ denied'
    → allowed ≡ allowed'
    → (if no_path
        then pos 0
        else if only && host
        then pos 0
        else if monitor
        then pos 0
        else if denied
        then e
        else if allowed
        then pos 0
        else neg 1)
      ≡ (if no_path
          then pos 0
          else if only' && host
          then pos 0
          else if monitor'
          then pos 0
          else if denied'
          then e
          else if allowed'
          then pos 0
          else neg 1)
answer-cong no_path host e eo em ed ea = rw (eo, em, ed, ea)

loaded_config : (r : Restriction) → config_of (mode_and_target r) ≡ loaded r
loaded_config r = rw ((mode_and_target-read r).0, (mode_and_target-read r).1) refl

-- The configuration that the program finds.
abbrev found_config : Bool → Restriction → Option Config
found_config found r = if found then some (loaded r) else none

some_config-found :
    (found : Bool) (r : Restriction)
    → some_config (if found then some (mode_and_target r) else none) ≡ found_config found r
some_config-found true r = ap some (loaded_config r)
some_config-found false r = refl

only_container-found :
    (found : Bool) (r : Restriction)
    → only_container (found_config found r) ≡ (found && only_containers r)
only_container-found true r = one_if (only_containers r)
only_container-found false r = refl

is_monitor-found :
    (found : Bool) (r : Restriction)
    → is_monitor (found_config found r) ≡ (found && not (is_restricted r))
is_monitor-found true r = zero_if (is_restricted r)
is_monitor-found false r = refl

listed-names_path :
    (behind : Behind) (paths : List (List ℕ)) (path : List ℕ)
    → ArePaths paths
    → listed (seen file_path (entered behind 0 paths)) path ≡ names_path behind 0 paths path
listed-names_path behind paths path are =
    any_value-entered file_path (names path) behind path (λ v. refl) 0 paths are from_le_bytes

next_setter-done :
    (r : Result (Unit {0}) × FileMaps) (next : FileMaps → Result (Unit {0}) × FileMaps)
    → (next_setter r next).0 ≡ returned tt
    → (r.0 ≡ returned tt) × (next_setter r next ≡ next r.1)
next_setter-done (returned u, m) next h = (refl, refl)
next_setter-done (failed, m) next h = absurd (cc h)
next_setter-done (panicked, m) next h = absurd (cc h)

-- The settings can be written: at most 256 paths in each list, none of them with a NUL.
pub record IsWritable (c : RestrictedFileAccessConfig) : Type 0 where
  pub few_allowed : length c.allow ≤ 256
  pub few_denied : length c.deny ≤ 256
  pub allow-ArePaths : ArePaths c.allow
  pub deny-ArePaths : ArePaths c.deny

module _ (lib : MapLib) (memory : Memory) (c : RestrictedFileAccessConfig) (w : IsWritable c)
    (done : (set_config_to_map lib memory c no_entries).0 ≡ returned tt) where
  written_maps :
      (lookup_value (set_config_to_map lib memory c no_entries).1.config 0 ≡ (
        if finds_config memory.behind_config then some (mode_and_target c.restriction) else none))
      × ((set_config_to_map lib memory c no_entries).1.allowed
          ≡ entered memory.behind_allowed 0 c.allow)
      × ((set_config_to_map lib memory c no_entries).1.denied
          ≡ entered memory.behind_denied 0 c.deny)
  unfolding set_config_to_map set_mode_target set_allowed_file_access_map set_denied_file_access_map
  written_maps =
      let first = next_setter-done (set_mode_target lib memory c no_entries) _ done in
      let done' = sym (ap (λ r. r.0) first.1) ∙ done in
      let second = next_setter-done (set_allowed_file_access_map lib memory c _) _ done' in
      let done'' = sym (ap (λ r. r.0) second.1) ∙ done' in
      let e = first.1 ∙ second.1 in
      (
        ap (λ r. lookup_value r.1.config 0) e
            ∙ lookup_value-set_mode_and_target lib fileaccess_config memory.behind_config
                c.restriction first.0,
        ap (λ r. r.1.allowed) e
            ∙ set_path_map-entered lib allowed_files_map_name memory.behind_allowed c.allow
                w.few_allowed second.0,
        ap (λ r. r.1.denied) e
            ∙ set_path_map-entered lib denied_files_map_name memory.behind_denied c.deny
                w.few_denied done'',
      )

  -- From the settings to the answer, for settings with at most 256 paths in a list, none of them
  -- with a NUL: once the manager has filled empty maps without an error, the program answers by the
  -- settings, in whatever order the kernel keeps the entries. It permits what has no path. If the
  -- bytes of memory that the manager passes on behind its key of one byte are 0, the program finds
  -- mode and target: it permits what an exempt process of the host opens, and everything in monitor
  -- mode; otherwise it does neither. Then a path that begins with a denied one is refused with
  -- -EPERM, one that begins with an allowed one is permitted, and any other is refused with -1. A
  -- path of the settings counts with the bytes that follow it in memory up to a NUL, cut to 255
  -- bytes.
  pub restricted_file_open-set_config_to_map :
      (for_each : ForEach FilePath CallbackCtx) (k : Kernel) (maps : Maps) (file_ptr : ℕ)
      → IsForEach for_each
      → AreMaps (set_config_to_map lib memory c no_entries).1 maps
      → (restricted_file_open k for_each maps file_ptr).ret ≡ (
          if is_negative (opened k file_ptr).0
          then pos 0
          else if (finds_config memory.behind_config && only_containers c.restriction)
              && is_host_mntns k
          then pos 0
          else if finds_config memory.behind_config && not (is_restricted c.restriction)
          then pos 0
          else if names_path memory.behind_denied 0 c.deny (opened k file_ptr).1
          then neg k.eperm
          else if names_path memory.behind_allowed 0 c.allow (opened k file_ptr).1
          then pos 0
          else neg 1)
  restricted_file_open-set_config_to_map for_each k maps file_ptr visits are =
      let path = (opened k file_ptr).1 in
      let found = finds_config memory.behind_config in
      let config : maps.fileopen_bouheki_config_map 0 ≡ found_config found c.restriction =
        are.config 0 ∙ (ap some_config written_maps.0 ∙ some_config-found found c.restriction) in
      let allowed : listed maps.allowed_access_files path
          ≡ names_path memory.behind_allowed 0 c.allow path =
        sym (any_value-Perm (names path) are.allowed)
        ∙ (ap (λ es. listed (seen file_path es) path) written_maps.1
            ∙ listed-names_path memory.behind_allowed c.allow path w.allow-ArePaths) in
      let denied : listed maps.denied_access_files path
          ≡ names_path memory.behind_denied 0 c.deny path =
        sym (any_value-Perm (names path) are.denied)
        ∙ (ap (λ es. listed (seen file_path es) path) written_maps.2
            ∙ listed-names_path memory.behind_denied c.deny path w.deny-ArePaths) in
      ret-restricted_file_open for_each visits k maps file_ptr
      ∙ answer-cong (is_negative (opened k file_ptr).0) (is_host_mntns k) (neg k.eperm)
          (ap only_container config ∙ only_container-found found c.restriction)
          (ap is_monitor config ∙ is_monitor-found found c.restriction) denied allowed
