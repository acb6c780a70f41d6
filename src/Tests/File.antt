-- ===== src/Tests/File.antt =====
-- The program of File.antt on a concrete kernel and concrete maps.
use mathlib.Core.List.Perm
use bouheki.Prelude.{ℕ, ◌≡◌, refl, List, [], ◌∷◌, some, length, negsuc}
use bouheki.Buffer.Members.{Holds}
use bouheki.File.{FilePath, Maps, file_open_audit_event, restricted_file_open}
use bouheki.File.Policy.{opened, ret-restricted_file_open, verdict}
use bouheki.File.Event.{reported, restricted_file_open-reports}
use bouheki.File.Lists.{deny_entry_refuses, restricted_file_open-Perm}
use bouheki.Tests.Kernel.{
  etc, etc_passwd, fit, in_order, in_order-IsForEach, kernel, kernel-IsKernel,
}

abbrev pub entry : List ℕ → FilePath
entry path = record { path = fit 255 path }

-- mode block on the host; "/" is allowed
abbrev pub maps : List (ℕ × FilePath) → Maps
maps denied = record {
  fileopen_bouheki_config_map = λ i. some (record { mode = 1; target = 0 });
  allowed_access_files = (0, entry (b'/' ∷ [])) ∷ [];
  denied_access_files = denied;
}

abbrev pub deny_etc : List (ℕ × FilePath)
deny_etc = (0, entry (b'/' ∷ b'b' ∷ [])) ∷ (1, entry etc) ∷ []

-- only containers are restricted
abbrev container_maps : Maps
container_maps = record (maps deny_etc) {
  fileopen_bouheki_config_map = λ i. some (record { mode = 1; target = 1 });
}

ret-restricted_file_open_example :
    (restricted_file_open kernel in_order (maps deny_etc) 0).ret
    ≡ verdict kernel (maps deny_etc) (fit 255 etc_passwd)
ret-restricted_file_open_example =
    ret-restricted_file_open in_order in_order-IsForEach kernel (maps deny_etc) 0

restricted_file_open-reports_example :
    (event : List ℕ) × ((restricted_file_open kernel in_order (maps deny_etc) 0).events
      ≡ event ∷ [])
    × (length event ≡ 368)
    × Holds file_open_audit_event
        (reported kernel
          (opened kernel 0).1
          (restricted_file_open kernel in_order (maps deny_etc) 0).ret)
        event
restricted_file_open-reports_example =
    restricted_file_open-reports in_order in_order-IsForEach kernel (maps deny_etc) 0
      kernel-IsKernel refl refl

restricted_file_open-Perm_example :
    restricted_file_open kernel in_order (maps deny_etc) 0
    ≡ restricted_file_open kernel in_order
        (maps ((1, entry etc) ∷ (0, entry (b'/' ∷ b'b' ∷ [])) ∷ []))
        0
restricted_file_open-Perm_example =
    restricted_file_open-Perm in_order in_order-IsForEach kernel (maps deny_etc) 0 (Perm.swap _ _ _)
      (Perm.refl _)

deny_entry_refuses_example : (restricted_file_open kernel in_order (maps deny_etc) 0).ret ≡ negsuc 0
deny_entry_refuses_example =
    deny_entry_refuses in_order in_order-IsForEach kernel (maps deny_etc) 0
      ((0, entry (b'/' ∷ b'b' ∷ [])) ∷ []) 1 (entry etc) [] refl refl refl refl refl
