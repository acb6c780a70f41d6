-- ===== src/Kernel/Types/Thread.antt =====
-- The architecture part of a task: FPU state and thread_struct. (pkg/bpf/c/vmlinux.h, lines 683 to 821.)
use bouheki.CType.{CType, array, struct, union, end, bits, ◌⨾◌, ◌∶◌}
use bouheki.Kernel.Types.Base.{u16, u32, u64, u8}
use bouheki.Kernel.Types.Scalars.{int, long, pointer, short}

abbrev pub desc_struct : CType
desc_struct = struct (
    "limit0" ∶ u16
    ⨾ "base0" ∶ u16
    ⨾ bits "base1" 2 8
    ⨾ bits "type" 2 4
    ⨾ bits "s" 2 1
    ⨾ bits "dpl" 2 2
    ⨾ bits "p" 2 1
    ⨾ bits "limit1" 2 4
    ⨾ bits "avl" 2 1
    ⨾ bits "l" 2 1
    ⨾ bits "d" 2 1
    ⨾ bits "g" 2 1
    ⨾ bits "base2" 2 8
    ⨾ end)

abbrev pub fregs_state : CType
fregs_state = struct (
    "cwd" ∶ u32
    ⨾ "swd" ∶ u32
    ⨾ "twd" ∶ u32
    ⨾ "fip" ∶ u32
    ⨾ "fcs" ∶ u32
    ⨾ "foo" ∶ u32
    ⨾ "fos" ∶ u32
    ⨾ "st_space" ∶ array u32 20
    ⨾ "status" ∶ u32
    ⨾ end)

abbrev pub fxregs_state : CType
fxregs_state = struct (
    "cwd" ∶ u16
    ⨾ "swd" ∶ u16
    ⨾ "twd" ∶ u16
    ⨾ "fop" ∶ u16
    ⨾ ""
      ∶ union (
          "" ∶ struct ("rip" ∶ u64 ⨾ "rdp" ∶ u64 ⨾ end)
          ⨾ "" ∶ struct ("fip" ∶ u32 ⨾ "fcs" ∶ u32 ⨾ "foo" ∶ u32 ⨾ "fos" ∶ u32 ⨾ end)
          ⨾ end)
    ⨾ "mxcsr" ∶ u32
    ⨾ "mxcsr_mask" ∶ u32
    ⨾ "st_space" ∶ array u32 32
    ⨾ "xmm_space" ∶ array u32 64
    ⨾ "padding" ∶ array u32 12
    ⨾ "" ∶ union ("padding1" ∶ array u32 12 ⨾ "sw_reserved" ∶ array u32 12 ⨾ end)
    ⨾ end)

abbrev pub swregs_state : CType
swregs_state = struct (
    "cwd" ∶ u32
    ⨾ "swd" ∶ u32
    ⨾ "twd" ∶ u32
    ⨾ "fip" ∶ u32
    ⨾ "fcs" ∶ u32
    ⨾ "foo" ∶ u32
    ⨾ "fos" ∶ u32
    ⨾ "st_space" ∶ array u32 20
    ⨾ "ftop" ∶ u8
    ⨾ "changed" ∶ u8
    ⨾ "lookahead" ∶ u8
    ⨾ "no_update" ∶ u8
    ⨾ "rm" ∶ u8
    ⨾ "alimit" ∶ u8
    ⨾ "info" ∶ pointer
    ⨾ "entry_eip" ∶ u32
    ⨾ end)

abbrev pub xstate_header : CType
xstate_header = struct ("xfeatures" ∶ u64 ⨾ "xcomp_bv" ∶ u64 ⨾ "reserved" ∶ array u64 6 ⨾ end)

abbrev pub xregs_state : CType
xregs_state =
    struct
      ("i387" ∶ fxregs_state ⨾ "header" ∶ xstate_header ⨾ "extended_state_area" ∶ array u8 0 ⨾ end)

abbrev pub fpregs_state : CType
fpregs_state = union (
    "fsave" ∶ fregs_state
    ⨾ "fxsave" ∶ fxregs_state
    ⨾ "soft" ∶ swregs_state
    ⨾ "xsave" ∶ xregs_state
    ⨾ "__padding" ∶ array u8 4096
    ⨾ end)

abbrev pub fpu : CType
fpu = struct (
    "last_cpu" ∶ int
    ⨾ "avx512_timestamp" ∶ long
    ⨾ bits "" 8 64
    ⨾ bits "" 8 64
    ⨾ bits "" 8 64
    ⨾ bits "" 8 64
    ⨾ bits "" 8 64
    ⨾ bits "" 8 64
    ⨾ "state" ∶ fpregs_state
    ⨾ end)

abbrev pub thread_struct : CType
thread_struct = struct (
    "tls_array" ∶ array desc_struct 3
    ⨾ "sp" ∶ long
    ⨾ "es" ∶ short
    ⨾ "ds" ∶ short
    ⨾ "fsindex" ∶ short
    ⨾ "gsindex" ∶ short
    ⨾ "fsbase" ∶ long
    ⨾ "gsbase" ∶ long
    ⨾ "ptrace_bps" ∶ array pointer 4
    ⨾ "virtual_dr6" ∶ long
    ⨾ "ptrace_dr7" ∶ long
    ⨾ "cr2" ∶ long
    ⨾ "trap_nr" ∶ long
    ⨾ "error_code" ∶ long
    ⨾ "io_bitmap" ∶ pointer
    ⨾ "iopl_emul" ∶ long
    ⨾ bits "sig_on_uaccess_err" 4 1
    ⨾ bits "" 8 63
    ⨾ bits "" 8 64
    ⨾ bits "" 8 64
    ⨾ bits "" 8 64
    ⨾ bits "" 8 64
    ⨾ bits "" 8 64
    ⨾ "fpu" ∶ fpu
    ⨾ end)
