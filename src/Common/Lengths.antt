-- ===== src/Common/Lengths.antt =====
-- What the programs read of the current task has the size of the array that it is read into.
use bouheki.Prelude.{ℕ, ◌≡◌, length, length-replicate}
use bouheki.Kernel.{Kernel, IsKernel, core_read_into}
use bouheki.Common.Container.{nodename, parent_comm}

pub length-nodename : (k : Kernel) → IsKernel k → length (nodename k) ≡ 65
unfolding nodename core_read_into
length-nodename k s = s.length-probe_read_kernel _ 65

pub length-parent_comm : (k : Kernel) → IsKernel k → length (parent_comm k) ≡ 16
unfolding parent_comm
length-parent_comm k s = s.length-probe_read_kernel_str 16 _ _ (length-replicate {A = ℕ} 16 0)
