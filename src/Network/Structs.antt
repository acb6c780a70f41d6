-- ===== src/Network/Structs.antt =====
-- pkg/bpf/c/restricted_network_structs.h: the structs of the network program, and the source
-- address of a socket. A union of keys is its bytes.
use bouheki.Prelude.{ℕ, ◌+◌, ◌*◌, ◌/◌, ◌%◌, List, [], ◌∷◌}
use bouheki.CType.{CType, array, struct, union, end, ◌⨾◌, ◌∶◌}
use bouheki.Kernel.{Kernel, core_read, core_read_pointer}
use bouheki.Kernel.Types.Base.{u8, u16, u32, u64}
use bouheki.Kernel.Types.Scalars.{char, int}
use bouheki.Kernel.Types.Net.{sock, in6_addr}
use bouheki.Kernel.Types.Socket.{in_addr, socket}
use bouheki.Common.{new_uts_len, task_comm_len}

abbrev pub af_inet : ℕ
af_inet = 2

abbrev pub af_inet6 : ℕ
af_inet6 = 10

-- enum audit_event_type
abbrev pub blocked_ipv4 : ℕ
blocked_ipv4 = 0

abbrev pub blocked_ipv6 : ℕ
blocked_ipv6 = 1

-- enum action
abbrev pub action_monitor : ℕ
action_monitor = 0

abbrev pub action_block : ℕ
action_block = 1

abbrev pub audit_event_header : CType
audit_event_header = struct (
    "cgroup" ∶ u64
    ⨾ "pid" ∶ u32
    ⨾ "type" ∶ int
    ⨾ "nodename" ∶ array char (new_uts_len + 1)
    ⨾ "task" ∶ array char task_comm_len
    ⨾ "parent_task" ∶ array char task_comm_len
    ⨾ end)

abbrev pub audit_event_ipv4 : CType
audit_event_ipv4 = struct (
    "hdr" ∶ audit_event_header
    ⨾ "src" ∶ in_addr
    ⨾ "dst" ∶ in_addr
    ⨾ "dport" ∶ u16
    ⨾ "operation" ∶ u8
    ⨾ "action" ∶ u8
    ⨾ "sock_type" ∶ u8
    ⨾ end)

abbrev pub audit_event_ipv6 : CType
audit_event_ipv6 = struct (
    "hdr" ∶ audit_event_header
    ⨾ "src" ∶ in6_addr
    ⨾ "dst" ∶ in6_addr
    ⨾ "dport" ∶ u16
    ⨾ "operation" ∶ u8
    ⨾ "action" ∶ u8
    ⨾ "sock_type" ∶ u8
    ⨾ end)

-- The keys of the lists of commands, users and groups.
abbrev pub allowed_command_key : CType
allowed_command_key = struct ("comm" ∶ array char task_comm_len ⨾ end)

abbrev pub denied_command_key : CType
denied_command_key = struct ("comm" ∶ array char task_comm_len ⨾ end)

abbrev pub allowed_uid_key : CType
allowed_uid_key = struct ("uid" ∶ u32 ⨾ end)

abbrev pub denied_uid_key : CType
denied_uid_key = struct ("uid" ∶ u32 ⨾ end)

abbrev pub allowed_gid_key : CType
allowed_gid_key = struct ("gid" ∶ u32 ⨾ end)

abbrev pub denied_gid_key : CType
denied_gid_key = struct ("gid" ∶ u32 ⨾ end)

abbrev pub ipv4_trie_key : CType
ipv4_trie_key = struct ("prefixlen" ∶ u32 ⨾ "addr" ∶ in_addr ⨾ end)

abbrev pub ipv6_trie_key : CType
ipv6_trie_key = struct ("prefixlen" ∶ u32 ⨾ "addr" ∶ in6_addr ⨾ end)

abbrev pub ip_trie_key : CType
ip_trie_key = union ("v4" ∶ ipv4_trie_key ⨾ "v6" ∶ ipv6_trie_key ⨾ end)

-- The bytes of the local address of a socket.
unfoldable pub src_addr4 : Kernel → ℕ → List ℕ
src_addr4 k sock_ptr =
    core_read k sock ("__sk_common" ∷ "skc_rcv_saddr" ∷ [])
      (core_read_pointer k socket ("sk" ∷ []) sock_ptr)

unfoldable pub src_addr6 : Kernel → ℕ → List ℕ
src_addr6 k sock_ptr =
    core_read k sock ("__sk_common" ∷ "skc_v6_rcv_saddr" ∷ [])
      (core_read_pointer k socket ("sk" ∷ []) sock_ptr)

-- __builtin_bswap16
unfoldable pub bswap16 : ℕ → ℕ
bswap16 x = x % 256 * 256 + x / 256 % 256
