-- ===== src/Tests/Layout.antt =====
-- Offsets and sizes that CType.antt computes for the members of the types of pkg/bpf/c/vmlinux.h
-- that the programs read, and of the struct of a file event.
use bouheki.Prelude.{◌+◌, ◌≤◌, ◌≡◌, refl, [], ◌∷◌}
use bouheki.CType.{sizeof}
use bouheki.Buffer.{offset_of, size_of}
use bouheki.Kernel.Types.Task.{task_struct}
use bouheki.Kernel.Types.Ns.{uts_namespace}
use bouheki.Kernel.Types.Socket.{mnt_namespace}
use bouheki.File.{file_open_audit_event}
use bouheki.Layout.Bounds.{member_in_bounds}

-- A name of a task has the 16 bytes that an event has for it.
task_comm : size_of task_struct ("comm" ∷ []) ≡ size_of file_open_audit_event ("task" ∷ [])
unfolding size_of
task_comm = refl

-- A name of a node has the 65 bytes that an event has for it.
task_nodename :
    size_of uts_namespace ("name" ∷ "nodename" ∷ [])
    ≡ size_of file_open_audit_event ("nodename" ∷ [])
unfolding size_of
task_nodename = refl

task_nsproxy : size_of task_struct ("nsproxy" ∷ []) ≡ 8
unfolding size_of
task_nsproxy = refl

inum : size_of mnt_namespace ("ns" ∷ "inum" ∷ []) ≡ 4
unfolding size_of
inum = refl

member_in_bounds_example :
    offset_of task_struct ("comm" ∷ []) + size_of task_struct ("comm" ∷ []) ≤ sizeof task_struct
member_in_bounds_example = member_in_bounds task_struct ("comm" ∷ [])
