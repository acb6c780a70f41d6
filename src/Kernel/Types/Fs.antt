-- ===== src/Kernel/Types/Fs.antt =====
-- Files and paths. (pkg/bpf/c/vmlinux.h, lines 1963 to 2212.)
use bouheki.CType.{CType, scalar, struct, union, end, ◌⨾◌, ◌∶◌}
use bouheki.Kernel.Types.Base.{fmode_t, loff_t, u32, u64}
use bouheki.Kernel.Types.Locks.{callback_head, list_head, llist_node, rwlock_t, spinlock_t}
use bouheki.Kernel.Types.Parts.{atomic_long_t, kuid_t, mutex}
use bouheki.Kernel.Types.Scalars.{int, long, pointer}

abbrev pub wait_queue_head : CType
wait_queue_head = struct ("lock" ∶ spinlock_t ⨾ "head" ∶ list_head ⨾ end)

abbrev pub wait_queue_head_t : CType
wait_queue_head_t = wait_queue_head

abbrev pub errseq_t : CType
errseq_t = u32

abbrev pub path : CType
path = struct ("mnt" ∶ pointer ⨾ "dentry" ∶ pointer ⨾ end)

abbrev pub rw_hint : CType
rw_hint = scalar 4

abbrev pub pid_type : CType
pid_type = scalar 4

abbrev pub fown_struct : CType
fown_struct = struct (
    "lock" ∶ rwlock_t
    ⨾ "pid" ∶ pointer
    ⨾ "pid_type" ∶ pid_type
    ⨾ "uid" ∶ kuid_t
    ⨾ "euid" ∶ kuid_t
    ⨾ "signum" ∶ int
    ⨾ end)

abbrev pub file_ra_state : CType
file_ra_state = struct (
    "start" ∶ long
    ⨾ "size" ∶ int
    ⨾ "async_size" ∶ int
    ⨾ "ra_pages" ∶ int
    ⨾ "mmap_miss" ∶ int
    ⨾ "prev_pos" ∶ loff_t
    ⨾ end)

abbrev pub file : CType
file = struct (
    "f_u" ∶ union ("fu_llist" ∶ llist_node ⨾ "fu_rcuhead" ∶ callback_head ⨾ end)
    ⨾ "f_path" ∶ path
    ⨾ "f_inode" ∶ pointer
    ⨾ "f_op" ∶ pointer
    ⨾ "f_lock" ∶ spinlock_t
    ⨾ "f_write_hint" ∶ rw_hint
    ⨾ "f_count" ∶ atomic_long_t
    ⨾ "f_flags" ∶ int
    ⨾ "f_mode" ∶ fmode_t
    ⨾ "f_pos_lock" ∶ mutex
    ⨾ "f_pos" ∶ loff_t
    ⨾ "f_owner" ∶ fown_struct
    ⨾ "f_cred" ∶ pointer
    ⨾ "f_ra" ∶ file_ra_state
    ⨾ "f_version" ∶ u64
    ⨾ "f_security" ∶ pointer
    ⨾ "private_data" ∶ pointer
    ⨾ "f_ep" ∶ pointer
    ⨾ "f_mapping" ∶ pointer
    ⨾ "f_wb_err" ∶ errseq_t
    ⨾ "f_sb_err" ∶ errseq_t
    ⨾ end)
