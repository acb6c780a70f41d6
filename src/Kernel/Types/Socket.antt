-- ===== src/Kernel/Types/Socket.antt =====
-- struct socket, socket addresses, struct mnt_namespace. (pkg/bpf/c/vmlinux.h, lines 11907 to 60687.)
use bouheki.CType.{CType, scalar, array, struct, end, bits, ◌⨾◌, ◌∶◌}
use bouheki.Kernel.Types.Base.{__u32, u64}
use bouheki.Kernel.Types.Fs.{wait_queue_head_t}
use bouheki.Kernel.Types.Locks.{callback_head, list_head, spinlock_t}
use bouheki.Kernel.Types.Net.{__be16, __be32, __kernel_sa_family_t, in6_addr}
use bouheki.Kernel.Types.Ns.{ns_common}
use bouheki.Kernel.Types.Scalars.{char, int, long, pointer, short}

abbrev pub socket_state : CType
socket_state = scalar 4

abbrev pub socket_wq : CType
socket_wq = struct (
    "wait" ∶ wait_queue_head_t
    ⨾ "fasync_list" ∶ pointer
    ⨾ "flags" ∶ long
    ⨾ "rcu" ∶ callback_head
    ⨾ bits "" 8 64
    ⨾ end)

abbrev pub socket : CType
socket = struct (
    "state" ∶ socket_state
    ⨾ "type" ∶ short
    ⨾ "flags" ∶ long
    ⨾ "file" ∶ pointer
    ⨾ "sk" ∶ pointer
    ⨾ "ops" ∶ pointer
    ⨾ bits "" 8 64
    ⨾ bits "" 8 64
    ⨾ bits "" 8 64
    ⨾ "wq" ∶ socket_wq
    ⨾ end)

abbrev pub mnt_namespace : CType
mnt_namespace = struct (
    "ns" ∶ ns_common
    ⨾ "root" ∶ pointer
    ⨾ "list" ∶ list_head
    ⨾ "ns_lock" ∶ spinlock_t
    ⨾ "user_ns" ∶ pointer
    ⨾ "ucounts" ∶ pointer
    ⨾ "seq" ∶ u64
    ⨾ "poll" ∶ wait_queue_head_t
    ⨾ "event" ∶ u64
    ⨾ "mounts" ∶ int
    ⨾ "pending_mounts" ∶ int
    ⨾ end)

abbrev pub sockaddr_in6 : CType
sockaddr_in6 = struct (
    "sin6_family" ∶ short
    ⨾ "sin6_port" ∶ __be16
    ⨾ "sin6_flowinfo" ∶ __be32
    ⨾ "sin6_addr" ∶ in6_addr
    ⨾ "sin6_scope_id" ∶ __u32
    ⨾ end)

abbrev pub in_addr : CType
in_addr = struct ("s_addr" ∶ __be32 ⨾ end)

abbrev pub sockaddr_in : CType
sockaddr_in = struct (
    "sin_family" ∶ __kernel_sa_family_t
    ⨾ "sin_port" ∶ __be16
    ⨾ "sin_addr" ∶ in_addr
    ⨾ "__pad" ∶ array char 8
    ⨾ end)
