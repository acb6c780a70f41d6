-- ===== src/Tests/Mount.antt =====
-- The program of Mount.antt on a concrete kernel and concrete maps: every mount is from
-- /etc/passwd.
use mathlib.Core.List.Perm
use bouheki.Prelude.{ℕ, ◌≡◌, List, [], ◌∷◌, some, length}
use bouheki.Buffer.{from_le_bytes}
use bouheki.Buffer.Members.{Holds}
use bouheki.Kernel.{core_read_into}
use bouheki.Mount.{FilePath, Maps, mount_audit_event, restricted_mount, source_path_of}
use bouheki.Mount.Policy.{ret-restricted_mount, restricted_mount-Perm, verdict}
use bouheki.Mount.Event.{reported, restricted_mount-reports}
use bouheki.Common.Container.{is_host_mntns}
use bouheki.Tests.Kernel.{
  etc, fit, in_container, in_order, in_order-IsForEach, kernel, kernel-IsKernel,
}

abbrev pub entry : List ℕ → FilePath
entry path = record { path = fit 255 path }

-- mode block, for containers
abbrev pub maps : List (ℕ × FilePath) → Maps
maps denied = record {
  mount_bouheki_config_map = λ i. some (record { mode = 1; target = 1 });
  mount_denied_source_list = denied;
}

abbrev pub deny_etc : List (ℕ × FilePath)
deny_etc = (0, entry (b'/' ∷ b'b' ∷ [])) ∷ (1, entry etc) ∷ []

ret-restricted_mount_example :
    (restricted_mount kernel in_order (maps deny_etc) 0).ret
    ≡ verdict kernel (maps deny_etc) (source_path_of kernel 0)
unfolding is_host_mntns from_le_bytes core_read_into
ret-restricted_mount_example =
    ret-restricted_mount in_order in_order-IsForEach kernel (maps deny_etc) 0

restricted_mount-reports_example :
    (event : List ℕ) × ((restricted_mount kernel in_order (maps deny_etc) 0).events ≡ event ∷ [])
    × (length event ≡ 368)
    × Holds mount_audit_event
        (reported kernel
          (source_path_of kernel 0)
          (restricted_mount kernel in_order (maps deny_etc) 0).ret)
        event
restricted_mount-reports_example =
    restricted_mount-reports in_order in_order-IsForEach kernel (maps deny_etc) 0 kernel-IsKernel
      in_container

restricted_mount-Perm_example :
    restricted_mount kernel in_order (maps deny_etc) 0
    ≡ restricted_mount kernel in_order
        (maps ((1, entry etc) ∷ (0, entry (b'/' ∷ b'b' ∷ [])) ∷ []))
        0
restricted_mount-Perm_example =
    restricted_mount-Perm in_order in_order-IsForEach kernel (maps deny_etc) 0 (Perm.swap _ _ _)
