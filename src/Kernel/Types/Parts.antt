-- ===== src/Kernel/Types/Parts.antt =====
-- The parts of a task that the other subsystems keep. (pkg/bpf/c/vmlinux.h, lines 594 to 681.)
use bouheki.CType.{CType, array, struct, end, ◌⨾◌, ◌∶◌}
use bouheki.Kernel.Types.Base.{__u32, atomic64_t, atomic_t, bool, u64, uid_t}
use bouheki.Kernel.Types.Locks.{list_head, spinlock_t}
use bouheki.Kernel.Types.Scalars.{int, long, pointer}
use bouheki.Kernel.Types.Sched.{cpumask, sigset_t}

abbrev pub sigpending : CType
sigpending = struct ("list" ∶ list_head ⨾ "signal" ∶ sigset_t ⨾ end)

abbrev pub kuid_t : CType
kuid_t = struct ("val" ∶ uid_t ⨾ end)

abbrev pub seccomp : CType
seccomp = struct ("mode" ∶ int ⨾ "filter_count" ∶ atomic_t ⨾ "filter" ∶ pointer ⨾ end)

abbrev pub syscall_user_dispatch : CType
syscall_user_dispatch =
    struct ("selector" ∶ pointer ⨾ "offset" ∶ long ⨾ "len" ∶ long ⨾ "on_dispatch" ∶ bool ⨾ end)

abbrev pub wake_q_node : CType
wake_q_node = struct ("next" ∶ pointer ⨾ end)

abbrev pub task_io_accounting : CType
task_io_accounting = struct (
    "rchar" ∶ u64
    ⨾ "wchar" ∶ u64
    ⨾ "syscr" ∶ u64
    ⨾ "syscw" ∶ u64
    ⨾ "read_bytes" ∶ u64
    ⨾ "write_bytes" ∶ u64
    ⨾ "cancelled_write_bytes" ∶ u64
    ⨾ end)

abbrev pub nodemask_t : CType
nodemask_t = struct ("bits" ∶ array long 16 ⨾ end)

abbrev pub seqcount : CType
seqcount = struct ("sequence" ∶ int ⨾ end)

abbrev pub seqcount_t : CType
seqcount_t = seqcount

abbrev pub seqcount_spinlock : CType
seqcount_spinlock = struct ("seqcount" ∶ seqcount_t ⨾ end)

abbrev pub seqcount_spinlock_t : CType
seqcount_spinlock_t = seqcount_spinlock

abbrev pub atomic_long_t : CType
atomic_long_t = atomic64_t

abbrev pub optimistic_spin_queue : CType
optimistic_spin_queue = struct ("tail" ∶ atomic_t ⨾ end)

abbrev pub mutex : CType
mutex = struct (
    "owner" ∶ atomic_long_t
    ⨾ "wait_lock" ∶ spinlock_t
    ⨾ "osq" ∶ optimistic_spin_queue
    ⨾ "wait_list" ∶ list_head
    ⨾ end)

abbrev pub arch_tlbflush_unmap_batch : CType
arch_tlbflush_unmap_batch = struct ("cpumask" ∶ cpumask ⨾ end)

abbrev pub tlbflush_unmap_batch : CType
tlbflush_unmap_batch =
    struct ("arch" ∶ arch_tlbflush_unmap_batch ⨾ "flush_required" ∶ bool ⨾ "writable" ∶ bool ⨾ end)

abbrev pub page_frag : CType
page_frag = struct ("page" ∶ pointer ⨾ "offset" ∶ __u32 ⨾ "size" ∶ __u32 ⨾ end)

abbrev pub kmap_ctrl : CType
kmap_ctrl = struct end

abbrev pub llist_head : CType
llist_head = struct ("first" ∶ pointer ⨾ end)
