-- ===== src/Kernel/Types/Locks.antt =====
-- Lists, queue nodes, spin locks and reference counts. (pkg/bpf/c/vmlinux.h, lines 111 to 361.)
use bouheki.CType.{CType, scalar, array, struct, union, end, ◌⨾◌, ◌∶◌}
use bouheki.Kernel.Types.Base.{atomic_t, clockid_t, u16, u32, u64, u8}
use bouheki.Kernel.Types.Scalars.{int, long, pointer}

abbrev pub list_head : CType
list_head = struct ("next" ∶ pointer ⨾ "prev" ∶ pointer ⨾ end)

abbrev pub hlist_head : CType
hlist_head = struct ("first" ∶ pointer ⨾ end)

abbrev pub hlist_node : CType
hlist_node = struct ("next" ∶ pointer ⨾ "pprev" ∶ pointer ⨾ end)

abbrev pub callback_head : CType
callback_head = struct ("next" ∶ pointer ⨾ "func" ∶ pointer ⨾ end)

abbrev pub qspinlock : CType
qspinlock = struct (
    ""
      ∶ union (
          "val" ∶ atomic_t
          ⨾ "" ∶ struct ("locked" ∶ u8 ⨾ "pending" ∶ u8 ⨾ end)
          ⨾ "" ∶ struct ("locked_pending" ∶ u16 ⨾ "tail" ∶ u16 ⨾ end)
          ⨾ end)
    ⨾ end)

abbrev pub arch_spinlock_t : CType
arch_spinlock_t = qspinlock

abbrev pub qrwlock : CType
qrwlock = struct (
    ""
      ∶ union
          ("cnts" ∶ atomic_t ⨾ "" ∶ struct ("wlocked" ∶ u8 ⨾ "__lstate" ∶ array u8 3 ⨾ end) ⨾ end)
    ⨾ "wait_lock" ∶ arch_spinlock_t
    ⨾ end)

abbrev pub arch_rwlock_t : CType
arch_rwlock_t = qrwlock

abbrev pub raw_spinlock : CType
raw_spinlock = struct ("raw_lock" ∶ arch_spinlock_t ⨾ end)

abbrev pub raw_spinlock_t : CType
raw_spinlock_t = raw_spinlock

abbrev pub spinlock : CType
spinlock = struct ("" ∶ union ("rlock" ∶ raw_spinlock ⨾ end) ⨾ end)

abbrev pub spinlock_t : CType
spinlock_t = spinlock

abbrev pub rwlock_t : CType
rwlock_t = struct ("raw_lock" ∶ arch_rwlock_t ⨾ end)

abbrev pub timespec_type : CType
timespec_type = scalar 4

abbrev pub restart_block : CType
restart_block = struct (
    "fn" ∶ pointer
    ⨾ ""
      ∶ union (
          "futex"
            ∶ struct (
                "uaddr" ∶ pointer
                ⨾ "val" ∶ u32
                ⨾ "flags" ∶ u32
                ⨾ "bitset" ∶ u32
                ⨾ "time" ∶ u64
                ⨾ "uaddr2" ∶ pointer
                ⨾ end)
          ⨾ "nanosleep"
            ∶ struct (
                "clockid" ∶ clockid_t
                ⨾ "type" ∶ timespec_type
                ⨾ "" ∶ union ("rmtp" ∶ pointer ⨾ "compat_rmtp" ∶ pointer ⨾ end)
                ⨾ "expires" ∶ u64
                ⨾ end)
          ⨾ "poll"
            ∶ struct (
                "ufds" ∶ pointer
                ⨾ "nfds" ∶ int
                ⨾ "has_timeout" ∶ int
                ⨾ "tv_sec" ∶ long
                ⨾ "tv_nsec" ∶ long
                ⨾ end)
          ⨾ end)
    ⨾ end)

abbrev pub thread_info : CType
thread_info = struct ("flags" ∶ long ⨾ "syscall_work" ∶ long ⨾ "status" ∶ u32 ⨾ end)

abbrev pub refcount_struct : CType
refcount_struct = struct ("refs" ∶ atomic_t ⨾ end)

abbrev pub refcount_t : CType
refcount_t = refcount_struct

abbrev pub llist_node : CType
llist_node = struct ("next" ∶ pointer ⨾ end)

abbrev pub __call_single_node : CType
__call_single_node = struct (
    "llist" ∶ llist_node
    ⨾ "" ∶ union ("u_flags" ∶ int ⨾ "a_flags" ∶ atomic_t ⨾ end)
    ⨾ "src" ∶ u16
    ⨾ "dst" ∶ u16
    ⨾ end)
