-- ===== src/Kernel/Types/Ns.antt =====
-- Namespaces: nsproxy, uts_namespace, ns_common. (pkg/bpf/c/vmlinux.h, lines 4452 to 7349.)
use bouheki.CType.{CType, array, struct, end, ◌⨾◌, ◌∶◌}
use bouheki.Kernel.Types.Base.{atomic_t, u32}
use bouheki.Kernel.Types.Locks.{hlist_node, refcount_t}
use bouheki.Kernel.Types.Parts.{atomic_long_t}
use bouheki.Kernel.Types.Scalars.{char, int, long, pointer}

abbrev pub ns_common : CType
ns_common =
    struct ("stashed" ∶ atomic_long_t ⨾ "ops" ∶ pointer ⨾ "inum" ∶ int ⨾ "count" ∶ refcount_t ⨾ end)

abbrev pub timer_list : CType
timer_list =
    struct ("entry" ∶ hlist_node ⨾ "expires" ∶ long ⨾ "function" ∶ pointer ⨾ "flags" ∶ u32 ⨾ end)

abbrev pub nsproxy : CType
nsproxy = struct (
    "count" ∶ atomic_t
    ⨾ "uts_ns" ∶ pointer
    ⨾ "ipc_ns" ∶ pointer
    ⨾ "mnt_ns" ∶ pointer
    ⨾ "pid_ns_for_children" ∶ pointer
    ⨾ "net_ns" ∶ pointer
    ⨾ "time_ns" ∶ pointer
    ⨾ "time_ns_for_children" ∶ pointer
    ⨾ "cgroup_ns" ∶ pointer
    ⨾ end)

abbrev pub new_utsname : CType
new_utsname = struct (
    "sysname" ∶ array char 65
    ⨾ "nodename" ∶ array char 65
    ⨾ "release" ∶ array char 65
    ⨾ "version" ∶ array char 65
    ⨾ "machine" ∶ array char 65
    ⨾ "domainname" ∶ array char 65
    ⨾ end)

abbrev pub uts_namespace : CType
uts_namespace =
    struct
      ("name" ∶ new_utsname ⨾ "user_ns" ∶ pointer ⨾ "ucounts" ∶ pointer ⨾ "ns" ∶ ns_common ⨾ end)
