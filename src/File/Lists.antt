-- ===== src/File/Lists.antt =====
-- How the answer of pkg/bpf/c/restricted-file.bpf.c depends on its two lists of paths.
use mathlib.Core.List.{Perm}
use bouheki.Prelude.{ℕ, ◌≡◌, sym, ◌∙◌, List, ◌∷◌, ◌++◌, false, true, ◌&&◌, is_negative, neg}
use bouheki.Kernel.{Kernel, ForEach, IsForEach}
use bouheki.Kernel.Search.{any_value-Perm, any_value_mem}
use bouheki.Common.Container.{is_host_mntns}
use bouheki.File.{FilePath, CallbackCtx, Maps, is_monitor, only_container, restricted_file_open}
use bouheki.File.Policy.{names, opened, restricted_file_open-eq-out, ret-restricted_file_open}

module _ (for_each : ForEach FilePath CallbackCtx) (visits : IsForEach for_each) (k : Kernel)
    (m : Maps) (file_ptr : ℕ) where
  -- The order of the entries in the two hash maps, which the program cannot choose, does not
  -- change what it does, its events included.
  pub restricted_file_open-Perm :
      {denied allowed : List (ℕ × FilePath)}
      → Perm m.denied_access_files denied
      → Perm m.allowed_access_files allowed
      → restricted_file_open k for_each m file_ptr
        ≡ restricted_file_open k for_each
            (record m { denied_access_files = denied; allowed_access_files = allowed })
            file_ptr
  restricted_file_open-Perm {denied} {allowed} p q =
      restricted_file_open-eq-out for_each visits k m file_ptr
      ∙ rw
          (
            any_value-Perm (names (opened k file_ptr).1) p,
            any_value-Perm (names (opened k file_ptr).1) q,
          )
          (sym (
            restricted_file_open-eq-out for_each visits k
              (record m { denied_access_files = denied; allowed_access_files = allowed }) file_ptr))

  -- Where restrictions apply and the mode is not monitor, a deny entry that is the beginning of
  -- the path makes the program refuse with -EPERM, whatever else the two lists hold.
  pub deny_entry_refuses :
      (before : List (ℕ × FilePath)) (key : ℕ) (p : FilePath) (after : List (ℕ × FilePath))
      → m.denied_access_files ≡ before ++ (key, p) ∷ after
      → names (opened k file_ptr).1 p ≡ true
      → is_negative (opened k file_ptr).0 ≡ false
      → only_container (m.fileopen_bouheki_config_map 0) && is_host_mntns k ≡ false
      → is_monitor (m.fileopen_bouheki_config_map 0) ≡ false
      → (restricted_file_open k for_each m file_ptr).ret ≡ neg k.eperm
  deny_entry_refuses before key p after denied hit path restricted blocking =
      ret-restricted_file_open for_each visits k m file_ptr
      ∙ rw (
        path,
        restricted,
        blocking,
        denied,
        any_value_mem (names (opened k file_ptr).1) before key p after hit,
      )
