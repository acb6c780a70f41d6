-- ===== src/Tests/Kernel.antt =====
-- A kernel for the tests. The current task runs in a container, opens /etc/passwd and connects to
-- port 443; a socket address at 100 is IPv4, one at 200 is IPv6.
use bouheki.Prelude.{
  ℕ, zero, suc, ◌+◌, ◌*◌, ◌^◌, ◌≡◌, refl, true, false, ap, List, [], ◌∷◌, ◌++◌, arith,
  if◌then◌else◌, ◌==◌, length, replicate, length-replicate, pos,
}
use bouheki.Buffer.{le_bytes, from_le_bytes}
use bouheki.Common.Container.{is_host_mntns}
use bouheki.Buffer.Bytes.{byte-le_bytes, length-le_bytes}
use bouheki.Kernel.{Kernel, IsKernel, ForEach, IsForEach, visit, core_read_into}

-- The first `n` bytes, filled up with zeros.
abbrev pub fit : ℕ → List ℕ → List ℕ
fit zero xs = []
fit (suc n) [] = 0 ∷ fit n []
fit (suc n) (x ∷ xs) = x ∷ fit n xs

pub length-fit : (n : ℕ) (xs : List ℕ) → length (fit n xs) ≡ n
length-fit zero xs = refl
length-fit (suc n) [] = ap suc (length-fit n [])
length-fit (suc n) (x ∷ xs) = ap suc (length-fit n xs)

-- "/etc"
abbrev pub etc : List ℕ
etc = b'/' ∷ b'e' ∷ b't' ∷ b'c' ∷ []

-- "/etc/passwd"
abbrev pub etc_passwd : List ℕ
etc_passwd = etc ++ (b'/' ∷ b'p' ∷ b'a' ∷ b's' ∷ b's' ∷ b'w' ∷ b'd' ∷ [])

abbrev pub curl : List ℕ
curl = fit 16 (b'c' ∷ b'u' ∷ b'r' ∷ b'l' ∷ [])

abbrev pub ipv4_address : ℕ
ipv4_address = 100

abbrev pub ipv6_address : ℕ
ipv6_address = 200

abbrev pub kernel : Kernel
kernel = record {
  current_task = 4096;
  probe_read_kernel = λ a n. replicate n 7;
  load =
      λ a n. le_bytes n (if a == ipv4_address then 2 else if a == ipv6_address then 10 else 47873);
  probe_read_kernel_str = λ n a buf. fit n etc_passwd;
  d_path = λ a n buf. (pos 12, fit n etc_passwd);
  current_comm = λ n. fit n (b'c' ∷ b'u' ∷ b'r' ∷ b'l' ∷ []);
  current_cgroup_id = 5;
  current_pid_tgid = 4321 * 2 ^ 32 + 4322;
  current_uid_gid = 100 * 2 ^ 32 + 1000;
  eperm = 1;
}

pub kernel-IsKernel : IsKernel kernel
kernel-IsKernel = record {
  length-probe_read_kernel = λ a n. length-replicate {A = ℕ} n 7;
  length-load = λ a n. length-le_bytes n _;
  byte-load = λ a n i. byte-le_bytes n _ i;
  length-probe_read_kernel_str = λ n a buf h. length-fit n etc_passwd;
  length-d_path = λ a n buf h. length-fit n etc_passwd;
  length-current_comm = λ n. length-fit n _;
  current_cgroup_id_bound = omega arith;
  current_pid_tgid_bound = omega arith;
  current_uid_gid_bound = omega arith;
  eperm_pos = omega arith;
  eperm_bound = omega arith;
}

-- The same, but the current task runs on the host.
abbrev pub host_kernel : Kernel
host_kernel = record kernel { probe_read_kernel = λ a n. fit n (0 ∷ 0 ∷ 0 ∷ 0xf0 ∷ []) }

pub host_kernel-IsKernel : IsKernel host_kernel
host_kernel-IsKernel = record {
  length-probe_read_kernel = λ a n. length-fit n _;
  length-load = λ a n. length-le_bytes n _;
  byte-load = λ a n i. byte-le_bytes n _ i;
  length-probe_read_kernel_str = λ n a buf h. length-fit n etc_passwd;
  length-d_path = λ a n buf h. length-fit n etc_passwd;
  length-current_comm = λ n. length-fit n _;
  current_cgroup_id_bound = omega arith;
  current_pid_tgid_bound = omega arith;
  current_uid_gid_bound = omega arith;
  eperm_pos = omega arith;
  eperm_bound = omega arith;
}

pub on_host : is_host_mntns host_kernel ≡ true
unfolding is_host_mntns core_read_into from_le_bytes
on_host = refl

pub in_container : is_host_mntns kernel ≡ false
unfolding is_host_mntns core_read_into from_le_bytes
in_container = refl

abbrev pub in_order : {V C : Type 0} → ForEach V C
in_order = record { call = λ es cb c. visit cb es c }

pub in_order-IsForEach : {V C : Type 0} → IsForEach (in_order {V = V} {C = C})
in_order-IsForEach = record { visits = λ es cb c h. refl }
