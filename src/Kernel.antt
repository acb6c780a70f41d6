-- ===== src/Kernel.antt =====
-- The kernel as the programs of pkg/bpf/c see it: the types of vmlinux.h (Types), and the helpers
-- of bpf/bpf_helpers.h and bpf/bpf_core_read.h, which are not in the repository, as parameters. A
-- run of a program is short and the model takes what the helpers answer during it as fixed.
pub mod Types
pub mod Search
use bouheki.Prelude.{ℕ, ◌+◌, ◌^◌, ◌<◌, ◌≡◌, List, [], ◌∷◌, String, ℤ, length, get_or}
use bouheki.CType.{CType}
use bouheki.Buffer.{offset_of, size_of, from_le_bytes}

pub record Kernel : Type 0 where
  -- bpf_get_current_task, an address
  pub current_task : ℕ
  -- the bytes that `dst` holds after bpf_probe_read_kernel(dst, size, address), given address and
  -- size; BPF_CORE_READ and BPF_CORE_READ_INTO read so, at the address of a member
  pub probe_read_kernel : ℕ → ℕ → List ℕ
  -- a load through a pointer that the verifier has accepted, given address and size
  pub load : ℕ → ℕ → List ℕ
  -- the bytes of `dst` after bpf_probe_read_kernel_str(dst, size, address), given the size, the
  -- address and the bytes before
  pub probe_read_kernel_str : ℕ → ℕ → List ℕ → List ℕ
  -- bpf_d_path(path, buf, size): the result, and the bytes of `buf`, given those before
  pub d_path : ℕ → ℕ → List ℕ → ℤ × List ℕ
  -- the bytes that bpf_get_current_comm(buf, size) writes
  pub current_comm : ℕ → List ℕ
  pub current_cgroup_id : ℕ
  pub current_pid_tgid : ℕ
  pub current_uid_gid : ℕ
  -- EPERM of linux/errno.h
  pub eperm : ℕ

-- What the documentation of the helpers says of them: each fills the buffer of the size that it
-- is given with bytes, and the ids are 64-bit integers; error numbers are small and positive.
pub record IsKernel (k : Kernel) : Type 0 where
  pub length-probe_read_kernel : (a n : ℕ) → length (k.probe_read_kernel a n) ≡ n
  pub length-load : (a n : ℕ) → length (k.load a n) ≡ n
  pub byte-load : (a n i : ℕ) → get_or (k.load a n) i 0 < 256
  pub length-probe_read_kernel_str :
      (n a : ℕ) (buf : List ℕ) → length buf ≡ n → length (k.probe_read_kernel_str n a buf) ≡ n
  pub length-d_path : (a n : ℕ) (buf : List ℕ) → length buf ≡ n → length (k.d_path a n buf).1 ≡ n
  pub length-current_comm : (n : ℕ) → length (k.current_comm n) ≡ n
  pub current_cgroup_id_bound : k.current_cgroup_id < 2 ^ 64
  pub current_pid_tgid_bound : k.current_pid_tgid < 2 ^ 64
  pub current_uid_gid_bound : k.current_uid_gid < 2 ^ 64
  pub eperm_pos : 0 < k.eperm
  pub eperm_bound : k.eperm < 4096

-- BPF_CORE_READ_INTO(dst, src, path) with a destination of `n` bytes.
unfoldable pub core_read_into : Kernel → ℕ → CType → List String → ℕ → List ℕ
core_read_into k n t path src = k.probe_read_kernel (src + offset_of t path) n

-- BPF_CORE_READ(src, path), whose result has the type of the member.
unfoldable pub core_read : Kernel → CType → List String → ℕ → List ℕ
core_read k t path src = k.probe_read_kernel (src + offset_of t path) (size_of t path)

-- A pointer that is read so.
abbrev pub core_read_pointer : Kernel → CType → List String → ℕ → ℕ
core_read_pointer k t path src = from_le_bytes (core_read_into k 8 t path src)

-- bpf_for_each_map_elem over a map whose entries, in the order of the visit, are a list. The
-- callback gets a key, a value and its context, and returns a number and the context; the result
-- is the context at the end.
pub record ForEach (V C : Type 0) : Type 0 where
  pub call : List (ℕ × V) → (ℕ → V → C → ℕ × C) → C → C

-- The contexts of the visits in turn.
abbrev pub visit : {V C : Type 0} → (ℕ → V → C → ℕ × C) → List (ℕ × V) → C → C
visit cb [] c = c
visit cb ((key, v) ∷ rest) c = visit cb rest (cb key v c).1

-- As documented: while the callback returns 0, the next element is visited.
pub record IsForEach {V C : Type 0} (f : ForEach V C) : Type 0 where
  pub visits :
      (es : List (ℕ × V)) (cb : ℕ → V → C → ℕ × C) (c : C)
      → ((key : ℕ) (v : V) (d : C) → (cb key v d).0 ≡ 0)
      → f.call es cb c ≡ visit cb es c

-- What a program does: the value that it returns to the hook, and the events that it sends to user
-- space, as bytes.
pub record Outcome : Type 0 where
  pub ret : ℤ
  pub events : List (List ℕ)
