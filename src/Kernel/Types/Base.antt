-- ===== src/Kernel/Types/Base.antt =====
-- Scalar typedefs and the atomic counters. (pkg/bpf/c/vmlinux.h, lines 8 to 109.)
use bouheki.CType.{CType, struct, end, ◌⨾◌, ◌∶◌}
use bouheki.Kernel.Types.Scalars.{char, int, long, short}

abbrev pub __u8 : CType
__u8 = char

abbrev pub __u16 : CType
__u16 = short

abbrev pub __s32 : CType
__s32 = int

abbrev pub __u32 : CType
__u32 = int

abbrev pub __s64 : CType
__s64 = long

abbrev pub __u64 : CType
__u64 = long

abbrev pub u8 : CType
u8 = __u8

abbrev pub u16 : CType
u16 = __u16

abbrev pub u32 : CType
u32 = __u32

abbrev pub s64 : CType
s64 = __s64

abbrev pub u64 : CType
u64 = __u64

abbrev pub __kernel_ulong_t : CType
__kernel_ulong_t = long

abbrev pub __kernel_pid_t : CType
__kernel_pid_t = int

abbrev pub __kernel_uid32_t : CType
__kernel_uid32_t = int

abbrev pub __kernel_size_t : CType
__kernel_size_t = __kernel_ulong_t

abbrev pub __kernel_loff_t : CType
__kernel_loff_t = long

abbrev pub __kernel_clockid_t : CType
__kernel_clockid_t = int

abbrev pub pid_t : CType
pid_t = __kernel_pid_t

abbrev pub clockid_t : CType
clockid_t = __kernel_clockid_t

abbrev pub bool : CType
bool = char

abbrev pub uid_t : CType
uid_t = __kernel_uid32_t

abbrev pub loff_t : CType
loff_t = __kernel_loff_t

abbrev pub size_t : CType
size_t = __kernel_size_t

abbrev pub gfp_t : CType
gfp_t = int

abbrev pub fmode_t : CType
fmode_t = int

abbrev pub atomic_t : CType
atomic_t = struct ("counter" ∶ int ⨾ end)

abbrev pub atomic64_t : CType
atomic64_t = struct ("counter" ∶ s64 ⨾ end)
