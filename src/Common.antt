-- ===== src/Common.antt =====
-- pkg/bpf/c/common_structs.h: the constants and the functions that the three programs share. The
-- test for a container reads kernel memory and stands in Common/Container.antt. A C string is the
-- list of the bytes from its address on; a read behind the list gives 0, and
-- Common/Strings.antt shows that no such read decides anything.
pub mod Strings
pub mod Container
pub mod Lengths
use bouheki.Prelude.{ℕ, zero, suc, ◌+◌, List, if◌then◌else◌, ◌==◌, ◌||◌, not, get_or, ℤ, pos}

abbrev pub task_comm_len : ℕ
task_comm_len = 16

abbrev pub new_uts_len : ℕ
new_uts_len = 64

-- enum mode
abbrev pub mode_monitor : ℕ
mode_monitor = 0

abbrev pub mode_block : ℕ
mode_block = 1

-- enum target
abbrev pub target_host : ℕ
target_host = 0

abbrev pub target_container : ℕ
target_container = 1

-- enum lsm_hook_point
abbrev pub connect : ℕ
connect = 0

abbrev pub sendmsg : ℕ
sendmsg = 1

-- The loop of `strcmp` from index `i`, with that many rounds left.
strcmp_from : List ℕ → List ℕ → ℕ → ℕ → ℤ
strcmp_from a b i zero = pos 0
strcmp_from a b i (suc rounds) =
    let c1 = get_or a i 0 in
    let c2 = get_or b i 0 in
    let rest = strcmp_from a b (i + 1) rounds in
    if not (c1 == c2) || c1 == 0 || c2 == 0 then pos 1 else rest

-- Not the C library's function: 0 says that the first `len` bytes agree and hold no NUL.
unfoldable pub strcmp : List ℕ → List ℕ → ℕ → ℤ
unfolding strcmp_from
strcmp a b len = strcmp_from a b 0 len

-- The loop of `strlen` from index `i`, with that many rounds left.
strlen_from : List ℕ → ℕ → ℕ → ℕ
strlen_from s i zero = i
strlen_from s i (suc rounds) =
    let rest = strlen_from s (i + 1) rounds in if get_or s i 0 == 0 then i else rest

unfoldable pub strlen : List ℕ → ℕ → ℕ
unfolding strlen_from
strlen s max_len = strlen_from s 0 max_len
