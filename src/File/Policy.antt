-- ===== src/File/Policy.antt =====
-- The policy that pkg/bpf/c/restricted-file.bpf.c implements: which paths a list of paths names,
-- and what the program answers.
use bouheki.Prelude.{
  ℕ, ◌+◌, ◌≡◌, refl, ◌∙◌, List, [], ◌∷◌, Bool, false, true, ◌&&◌, take, if◌then◌else◌, is_negative,
  ℤ, pos, neg, ◌==◌, replicate, Option, Bool-cases, inl, inr,
}
use bouheki.Buffer.{offset_of, Assignment}
use bouheki.Kernel.{Kernel, ForEach, IsForEach}
use bouheki.Kernel.Search.{any_value, visit_lem}
use bouheki.Kernel.Types.Fs.{file}
use bouheki.Common.Container.{host_mnt_ns_inum, is_host_mntns, mnt_ns_inum}
use bouheki.Common.Strings.{cstring, prefix, strcmp-strlen}
use bouheki.File.{
  FilePath, CallbackCtx, Maps, Config, cb_check_path, name_max, is_monitor, only_container, out,
  event_of, restricted_file_open,
}

-- The entry is, as a C string, the beginning of the path.
abbrev pub names : List ℕ → FilePath → Bool
names path p = prefix (cstring (take name_max p.path)) (cstring path)

-- Some entry of the list is the beginning of the path.
abbrev pub listed : List (ℕ × FilePath) → List ℕ → Bool
listed es path = any_value (names path) es

abbrev ctx : List ℕ → Bool → CallbackCtx
ctx path found = record { path = path; found = found }

cb_check_path_stays :
    (path : List ℕ) (key : ℕ) (p : FilePath)
    → (cb_check_path key p (ctx path true)).1 ≡ ctx path true
unfolding cb_check_path
cb_check_path_stays path key p =
    rw strcmp-strlen (elim (Bool-cases (names path p)) [ inl hit ↦ rw hit | inr miss ↦ rw miss ])

cb_check_path_marks :
    (path : List ℕ) (key : ℕ) (p : FilePath)
    → (cb_check_path key p (ctx path false)).1
      ≡ (if names path p then ctx path true else ctx path false)
unfolding cb_check_path
cb_check_path_marks path key p = rw strcmp-strlen

-- The path of the opened file, as bpf_d_path gives it: the result and the bytes.
abbrev pub opened : Kernel → ℕ → ℤ × List ℕ
opened k file_ptr =
    k.d_path (file_ptr + offset_of file ("f_path" ∷ [])) name_max (replicate name_max 0)

-- What the two lists decide: a denied path is refused, also if it is allowed; a path that is in
-- neither list is refused too.
abbrev pub verdict : Kernel → Maps → List ℕ → ℤ
verdict k m path =
    if listed m.denied_access_files path
    then neg k.eperm
    else if listed m.allowed_access_files path
    then pos 0
    else neg 1

pub ret-out :
    (config : Option Config) (inum : ℕ) (event : List Assignment) (r : ℤ)
    → (out config inum event r).ret ≡ (
        if only_container config && inum == host_mnt_ns_inum
        then pos 0
        else if is_monitor config
        then pos 0
        else r)
unfolding out
ret-out config inum event r =
    elim (Bool-cases (only_container config && inum == host_mnt_ns_inum)) [
      | inl exempt ↦ rw exempt
      | inr not_exempt ↦ rw not_exempt
    ]

module _ (for_each : ForEach FilePath CallbackCtx) (visits : IsForEach for_each) where
  -- bpf_for_each_map_elem with the callback finds whether the list names the path.
  pub call-cb_check_path :
      (es : List (ℕ × FilePath)) (path : List ℕ)
      → for_each.call es cb_check_path (ctx path false)
        ≡ (if listed es path then ctx path true else ctx path false)
  unfolding cb_check_path
  call-cb_check_path es path =
      visits.visits es cb_check_path (ctx path false) (λ _ _ _. refl)
      ∙ visit_lem cb_check_path (names path) (ctx path false) (ctx path true)
          (cb_check_path_stays path) (cb_check_path_marks path) es

  module _ (k : Kernel) (m : Maps) (file_ptr : ℕ) where
    -- The program passes the verdict on the path to its label `out`, unless there is no path.
    pub restricted_file_open-eq-out : restricted_file_open k for_each m file_ptr ≡ (
        if is_negative (opened k file_ptr).0
        then record { ret = pos 0; events = [] }
        else out
            (m.fileopen_bouheki_config_map 0)
            (mnt_ns_inum k)
            (event_of k (opened k file_ptr).1)
            (verdict k m (opened k file_ptr).1))
    unfolding restricted_file_open
    restricted_file_open-eq-out =
        rw (call-cb_check_path m.denied_access_files (opened k file_ptr).1)
          (elim (Bool-cases (listed m.denied_access_files (opened k file_ptr).1)) [
            | inl denied ↦ rw denied
            | inr not_denied ↦
                rw (not_denied, call-cb_check_path m.allowed_access_files (opened k file_ptr).1)
                  (elim (Bool-cases (listed m.allowed_access_files (opened k file_ptr).1)) [
                    | inl allowed ↦ rw allowed
                    | inr not_allowed ↦ rw not_allowed
                  ])
          ])

    -- What the program answers to the hook, on every branch: 0 if the path cannot be read; 0 for a
    -- process of the host if only containers are restricted; 0 in monitor mode; otherwise the
    -- verdict of the lists on the path.
    pub ret-restricted_file_open : (restricted_file_open k for_each m file_ptr).ret ≡ (
        if is_negative (opened k file_ptr).0
        then pos 0
        else if only_container (m.fileopen_bouheki_config_map 0) && is_host_mntns k
        then pos 0
        else if is_monitor (m.fileopen_bouheki_config_map 0)
        then pos 0
        else verdict k m (opened k file_ptr).1)
    unfolding is_host_mntns
    ret-restricted_file_open =
        rw restricted_file_open-eq-out (elim (Bool-cases (is_negative (opened k file_ptr).0)) [
          | inl no_path ↦ rw no_path
          | inr path ↦ rw path (ret-out _ _ _ _)
        ])
