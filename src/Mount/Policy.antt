-- ===== src/Mount/Policy.antt =====
-- The policy that pkg/bpf/c/restricted-mount.bpf.c implements: which sources a list of paths names,
-- and what the program answers.
use mathlib.Core.List.{Perm}
use bouheki.Prelude.{
  sym, ℕ, ◌≡◌, refl, ◌∙◌, List, Bool, false, true, ◌&&◌, take, if◌then◌else◌, ℤ, pos, neg, ◌==◌,
  Option, Bool-cases, inl, inr,
}
use bouheki.Buffer.{Assignment}
use bouheki.Kernel.{Kernel, ForEach, IsForEach}
use bouheki.Kernel.Search.{any_value, any_value-Perm, visit_lem}
use bouheki.Common.Container.{host_mnt_ns_inum, is_host_mntns, mnt_ns_inum}
use bouheki.Common.Strings.{cstring, prefix, strcmp-strlen}
use bouheki.Mount.{
  FilePath, CallbackCtx, Maps, Config, cb_check_path, name_max, is_monitor, only_container, out,
  event_of, restricted_mount, source_path_of,
}

-- The entry is, as a C string, the beginning of the path.
abbrev pub names : List ℕ → FilePath → Bool
names path p = prefix (cstring (take name_max p.path)) (cstring path)

-- Some entry of the list is the beginning of the path.
abbrev pub listed : List (ℕ × FilePath) → List ℕ → Bool
listed es path = any_value (names path) es

abbrev ctx : List ℕ → Bool → CallbackCtx
ctx path found = record { source_path = path; found = found }

cb_check_path_stays :
    (path : List ℕ) (key : ℕ) (p : FilePath)
    → (cb_check_path key p (ctx path true)).1 ≡ ctx path true
unfolding cb_check_path
cb_check_path_stays path key p =
    rw strcmp-strlen (elim (Bool-cases (names path p)) [ inl hit ↦ rw hit | inr miss ↦ rw miss ])

cb_check_path_marks :
    (path : List ℕ) (key : ℕ) (p : FilePath)
    → (cb_check_path key p (ctx path false)).1
      ≡ (if names path p then ctx path true else ctx path false)
unfolding cb_check_path
cb_check_path_marks path key p = rw strcmp-strlen

-- What the list decides: a mount from a denied source is refused, any other goes through.
abbrev pub verdict : Kernel → Maps → List ℕ → ℤ
verdict k m path = if listed m.mount_denied_source_list path then neg k.eperm else pos 0

pub ret-out :
    (config : Option Config) (inum : ℕ) (event : List Assignment) (r : ℤ)
    → (out config inum event r).ret ≡ (
        if only_container config && inum == host_mnt_ns_inum
        then pos 0
        else if is_monitor config
        then pos 0
        else r)
unfolding out
ret-out config inum event r =
    elim (Bool-cases (only_container config && inum == host_mnt_ns_inum)) [
      | inl exempt ↦ rw exempt
      | inr not_exempt ↦ rw not_exempt
    ]

module _ (for_each : ForEach FilePath CallbackCtx) (visits : IsForEach for_each) where
  -- bpf_for_each_map_elem with the callback finds whether the list names the path.
  pub call-cb_check_path :
      (es : List (ℕ × FilePath)) (path : List ℕ)
      → for_each.call es cb_check_path (ctx path false)
        ≡ (if listed es path then ctx path true else ctx path false)
  unfolding cb_check_path
  call-cb_check_path es path =
      visits.visits es cb_check_path (ctx path false) (λ _ _ _. refl)
      ∙ visit_lem cb_check_path (names path) (ctx path false) (ctx path true)
          (cb_check_path_stays path) (cb_check_path_marks path) es

  module _ (k : Kernel) (m : Maps) (dev_name : ℕ) where
    -- The program passes the verdict on the source to its label `out`.
    pub restricted_mount-eq-out :
        restricted_mount k for_each m dev_name
        ≡ out
            (m.mount_bouheki_config_map 0)
            (mnt_ns_inum k)
            (event_of k (source_path_of k dev_name))
            (verdict k m (source_path_of k dev_name))
    unfolding restricted_mount
    restricted_mount-eq-out =
        rw (call-cb_check_path m.mount_denied_source_list (source_path_of k dev_name))
          (elim (Bool-cases (listed m.mount_denied_source_list (source_path_of k dev_name))) [
            | inl denied ↦ rw denied
            | inr not_denied ↦ rw not_denied
          ])

    -- What the program answers to the hook, on every branch: 0 for a process of the host if only
    -- containers are restricted; 0 in monitor mode; otherwise -EPERM if an entry of the list is
    -- the beginning of the source, and 0 if none is.
    pub ret-restricted_mount : (restricted_mount k for_each m dev_name).ret ≡ (
        if only_container (m.mount_bouheki_config_map 0) && is_host_mntns k
        then pos 0
        else if is_monitor (m.mount_bouheki_config_map 0)
        then pos 0
        else verdict k m (source_path_of k dev_name))
    unfolding is_host_mntns
    ret-restricted_mount = rw restricted_mount-eq-out (ret-out _ _ _ _)

  -- The order of the entries in the hash map does not change what the program does.
  pub restricted_mount-Perm :
      (k : Kernel) (m : Maps) (dev_name : ℕ) {denied : List (ℕ × FilePath)}
      → Perm m.mount_denied_source_list denied
      → restricted_mount k for_each m dev_name
        ≡ restricted_mount k for_each (record m { mount_denied_source_list = denied }) dev_name
  restricted_mount-Perm k m dev_name {denied} p =
      restricted_mount-eq-out k m dev_name
      ∙ rw (any_value-Perm (names (source_path_of k dev_name)) p) (
          sym (restricted_mount-eq-out k (record m { mount_denied_source_list = denied }) dev_name))
