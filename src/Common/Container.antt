-- ===== src/Common/Container.antt =====
-- is_container of pkg/bpf/c/common_structs.h, and the reads of the current task that all programs
-- share: its namespaces, the node name, the name of its parent.
use bouheki.Prelude.{ℕ, ◌+◌, ◌/◌, ◌^◌, List, [], ◌∷◌, Bool, not, ◌==◌, replicate}
use bouheki.Buffer.{offset_of, from_le_bytes}
use bouheki.Kernel.{Kernel, core_read_into, core_read_pointer, core_read}
use bouheki.Kernel.Types.Task.{task_struct}
use bouheki.Kernel.Types.Ns.{nsproxy, uts_namespace}
use bouheki.Kernel.Types.Socket.{mnt_namespace}
use bouheki.Common.{task_comm_len, new_uts_len}

-- PROC_MNT_INIT_INO as the sources spell it
abbrev pub host_mnt_ns_inum : ℕ
host_mnt_ns_inum = 0xF0000000

-- current_task->nsproxy
unfoldable pub current_nsproxy : Kernel → ℕ
current_nsproxy k = core_read_pointer k task_struct ("nsproxy" ∷ []) k.current_task

-- nsproxy->mnt_ns->ns.inum of the current task
unfoldable pub mnt_ns_inum : Kernel → ℕ
unfolding current_nsproxy
mnt_ns_inum k =
    let mnt_ns = core_read_pointer k nsproxy ("mnt_ns" ∷ []) (current_nsproxy k) in
    from_le_bytes (core_read_into k 4 mnt_namespace ("ns" ∷ "inum" ∷ []) mnt_ns)

-- nsproxy->uts_ns->name.nodename of the current task, into a `char[NEW_UTS_LEN + 1]`
unfoldable pub nodename : Kernel → List ℕ
unfolding current_nsproxy
nodename k =
    let uts_ns = core_read_pointer k nsproxy ("uts_ns" ∷ []) (current_nsproxy k) in
    core_read_into k (new_uts_len + 1) uts_namespace ("name" ∷ "nodename" ∷ []) uts_ns

-- current_task->real_parent->comm, into a zeroed `char[TASK_COMM_LEN]`
unfoldable pub parent_comm : Kernel → List ℕ
parent_comm k =
    let parent_task = from_le_bytes (core_read k task_struct ("real_parent" ∷ []) k.current_task) in
    k.probe_read_kernel_str task_comm_len (parent_task + offset_of task_struct ("comm" ∷ []))
      (replicate task_comm_len 0)

-- (u32)(bpf_get_current_pid_tgid() >> 32)
abbrev pub current_pid : Kernel → ℕ
current_pid k = k.current_pid_tgid / 2 ^ 32

-- _is_host_mntns
unfoldable pub is_host_mntns : Kernel → Bool
unfolding mnt_ns_inum
is_host_mntns k = mnt_ns_inum k == host_mnt_ns_inum

unfoldable pub is_container : Kernel → Bool
unfolding is_host_mntns
is_container k = not (is_host_mntns k)
