-- ===== src/Kernel/Types.antt =====
-- The types of pkg/bpf/c/vmlinux.h that the programs read, and those that these hold.
pub mod Scalars
pub mod Base
pub mod Locks
pub mod Sched
pub mod Parts
pub mod Thread
pub mod Task
pub mod Fs
pub mod Ns
pub mod Net
pub mod Socket
