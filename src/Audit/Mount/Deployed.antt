-- ===== src/Audit/Mount/Deployed.antt =====
-- From the configuration of pkg/audit/mount to the answer of pkg/bpf/c/restricted-mount.bpf.c.
use mathlib.Core.List.{Perm}
use bouheki.Prelude.{
  ℕ, ◌≤◌, ◌≡◌, refl, sym, ap, ◌∙◌, List, [], Bool, true, false, ◌&&◌, not, if◌then◌else◌, length,
  Option, none, some, ℤ, pos, neg, one_if, zero_if,
}
use bouheki.Buffer.{from_le_bytes, read_at}
use bouheki.Kernel.{Kernel, ForEach, IsForEach}
use bouheki.Kernel.Search.{any_value-Perm}
use bouheki.Common.Container.{is_host_mntns}
use bouheki.Mount.{
  CallbackCtx, Config, FilePath, Maps, is_monitor, only_container, restricted_mount, source_path_of,
}
use bouheki.Mount.Policy.{listed, names, ret-restricted_mount}
use bouheki.Audit.Dns.{Result, failed, panicked, returned}
use bouheki.Audit.Paths.{
  Behind, MapLib, Restriction, is_restricted, mode_and_target, only_containers, set_path_map,
}
use bouheki.Audit.Paths.Entered.{
  ArePaths, any_value-entered, entered, finds_config, lookup_value,
  lookup_value-set_mode_and_target, mode_and_target-read, names_path, seen, set_path_map-entered,
}
use bouheki.Audit.Mount.Manager.{
  MountMaps, RestrictedMountConfig, mount_config, mount_denied_source_list_name, set_config_to_map,
  set_denied,
}

-- The value of the configuration map as the program reads it.
abbrev pub config_of : List ℕ → Config
config_of value = record {
  mode = from_le_bytes (read_at 0 4 value);
  target = from_le_bytes (read_at 4 4 value);
}

abbrev pub some_config : Option (List ℕ) → Option Config
some_config none = none
some_config (some value) = some (config_of value)

abbrev pub file_path : List ℕ → FilePath
file_path value = record { path = value }

-- The maps are those of the program, whatever the order of the entries.
pub record AreMaps (m : MountMaps) (maps : Maps) : Type 0 where
  pub config : (i : ℕ) → maps.mount_bouheki_config_map i ≡ some_config (lookup_value m.config i)
  pub denied : Perm (seen file_path m.denied) maps.mount_denied_source_list

abbrev pub no_entries : MountMaps
no_entries = record { config = []; denied = [] }

abbrev loaded : Restriction → Config
loaded r = record {
  mode = if is_restricted r then 1 else 0;
  target = if only_containers r then 1 else 0;
}

loaded_config : (r : Restriction) → config_of (mode_and_target r) ≡ loaded r
loaded_config r = rw ((mode_and_target-read r).0, (mode_and_target-read r).1) refl

-- The configuration that the program finds.
abbrev found_config : Bool → Restriction → Option Config
found_config found r = if found then some (loaded r) else none

some_config-found :
    (found : Bool) (r : Restriction)
    → some_config (if found then some (mode_and_target r) else none) ≡ found_config found r
some_config-found true r = ap some (loaded_config r)
some_config-found false r = refl

only_container-found :
    (found : Bool) (r : Restriction)
    → only_container (found_config found r) ≡ (found && only_containers r)
only_container-found true r = one_if (only_containers r)
only_container-found false r = refl

is_monitor-found :
    (found : Bool) (r : Restriction)
    → is_monitor (found_config found r) ≡ (found && not (is_restricted r))
is_monitor-found true r = zero_if (is_restricted r)
is_monitor-found false r = refl

set_denied-done :
    (lib : MapLib) (behind : Behind) (c : RestrictedMountConfig) (r : Result (Unit {0}) × MountMaps)
    → (set_denied lib behind c r).0 ≡ returned tt
    → (r.0 ≡ returned tt)
      × ((set_path_map lib mount_denied_source_list_name behind c.deny_source_path r.1.denied).0
          ≡ returned tt)
      × ((set_denied lib behind c r).1.config ≡ r.1.config)
      × ((set_denied lib behind c r).1.denied
          ≡ (set_path_map lib mount_denied_source_list_name behind c.deny_source_path r.1.denied).1)
set_denied-done lib behind c (returned u, m) h = (refl, h, refl, refl)
set_denied-done lib behind c (failed, m) h = absurd (cc h)
set_denied-done lib behind c (panicked, m) h = absurd (cc h)

answer-cong :
    (host : Bool) (e : ℤ)
    → {only only' monitor monitor' denied denied' : Bool} → only ≡ only'
    → monitor ≡ monitor'
    → denied ≡ denied'
    → (if only && host then pos 0 else if monitor then pos 0 else if denied then e else pos 0)
      ≡ (if only' && host then pos 0 else if monitor' then pos 0 else if denied' then e else pos 0)
answer-cong host e eo em ed = rw (eo, em, ed)

module _ (lib : MapLib) (behind_config : List ℕ) (behind : Behind) (c : RestrictedMountConfig)
    (few : length c.deny_source_path ≤ 256) (are_paths : ArePaths c.deny_source_path)
    (done : (set_config_to_map lib behind_config behind c no_entries).0 ≡ returned tt) where
  written_maps :
      (lookup_value (set_config_to_map lib behind_config behind c no_entries).1.config 0
        ≡ (if finds_config behind_config then some (mode_and_target c.restriction) else none))
      × ((set_config_to_map lib behind_config behind c no_entries).1.denied
          ≡ entered behind 0 c.deny_source_path)
  unfolding set_config_to_map
  written_maps =
      let parts = set_denied-done lib behind c _ done in
      (
        ap (λ es. lookup_value es 0) parts.2
            ∙ lookup_value-set_mode_and_target lib mount_config behind_config c.restriction parts.0,
        parts.3
            ∙ set_path_map-entered lib mount_denied_source_list_name behind c.deny_source_path few
                parts.1,
      )

  -- From the settings to the answer, for settings with at most 256 denied paths, none of them with a
  -- NUL: once the manager has filled empty maps without an error, the program answers by the
  -- settings, in whatever order the kernel keeps the entries. If the bytes of memory that the manager
  -- passes on behind its key of one byte are 0, the program finds mode and target: it permits what an
  -- exempt process of the host mounts, and everything in monitor mode; otherwise it does neither. Then
  -- a source that begins with a denied path is refused with -EPERM, and any other is permitted. A
  -- path of the settings counts with the bytes that follow it in memory up to a NUL, cut to 255
  -- bytes.
  pub restricted_mount-set_config_to_map :
      (for_each : ForEach FilePath CallbackCtx) (k : Kernel) (maps : Maps) (dev_name : ℕ)
      → IsForEach for_each
      → AreMaps (set_config_to_map lib behind_config behind c no_entries).1 maps
      → (restricted_mount k for_each maps dev_name).ret ≡ (
          if (finds_config behind_config && only_containers c.restriction) && is_host_mntns k
          then pos 0
          else if finds_config behind_config && not (is_restricted c.restriction)
          then pos 0
          else if names_path behind 0 c.deny_source_path (source_path_of k dev_name)
          then neg k.eperm
          else pos 0)
  restricted_mount-set_config_to_map for_each k maps dev_name visits are =
      let source = source_path_of k dev_name in
      let found = finds_config behind_config in
      let config : maps.mount_bouheki_config_map 0 ≡ found_config found c.restriction =
        are.config 0 ∙ (ap some_config written_maps.0 ∙ some_config-found found c.restriction) in
      let denied : listed maps.mount_denied_source_list source
          ≡ names_path behind 0 c.deny_source_path source =
        sym (any_value-Perm (names source) are.denied)
        ∙ (ap (λ es. listed (seen file_path es) source) written_maps.1
            ∙ any_value-entered file_path (names source) behind source (λ v. refl) 0
                c.deny_source_path are_paths from_le_bytes) in
      ret-restricted_mount for_each visits k maps dev_name
      ∙ answer-cong (is_host_mntns k) (neg k.eperm)
          (ap only_container config ∙ only_container-found found c.restriction)
          (ap is_monitor config ∙ is_monitor-found found c.restriction) denied
