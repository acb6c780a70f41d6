-- ===== src/Network/Report.antt =====
-- report_ipv4_event and report_ipv6_event of pkg/bpf/c/restricted-network.bpf.c: the event that is
-- put into the ring buffer, as the assignments to its members and as bytes.
use bouheki.Prelude.{ℕ, ◌+◌, List, [], ◌∷◌, Bool, ◌==◌}
use bouheki.Buffer.{Assignment, assign, zeroed, offset_of, le_bytes, from_le_bytes}
use bouheki.Kernel.{Kernel, core_read}
use bouheki.Kernel.Types.Socket.{socket, sockaddr_in, sockaddr_in6}
use bouheki.Common.{task_comm_len}
use bouheki.Common.Container.{current_pid, nodename, parent_comm}
use bouheki.Network.Structs.{
  audit_event_ipv4, audit_event_ipv6, blocked_ipv4, blocked_ipv6, bswap16, src_addr4, src_addr6,
}

-- daddr->sin_port, as it is stored: in network byte order
unfoldable pub sin_port : Kernel → ℕ → ℕ
sin_port k daddr = from_le_bytes (k.load (daddr + offset_of sockaddr_in ("sin_port" ∷ [])) 2)

unfoldable pub sin6_port : Kernel → ℕ → ℕ
sin6_port k daddr = from_le_bytes (k.load (daddr + offset_of sockaddr_in6 ("sin6_port" ∷ [])) 2)

-- sock->type
unfoldable pub sock_type : Kernel → ℕ → ℕ
sock_type k sock_ptr = from_le_bytes (k.load (sock_ptr + offset_of socket ("type" ∷ [])) 2)

-- The assignments to the header, in the order of the source.
abbrev pub header : Kernel → ℕ → ℕ → List Assignment → List Assignment
header k cg type rest =
    ("hdr" ∷ "nodename" ∷ [], nodename k)
    ∷ ("hdr" ∷ "cgroup" ∷ [], le_bytes 8 cg)
    ∷ ("hdr" ∷ "pid" ∷ [], le_bytes 4 (current_pid k))
    ∷ ("hdr" ∷ "type" ∷ [], le_bytes 4 type)
    ∷ ("hdr" ∷ "task" ∷ [], k.current_comm task_comm_len)
    ∷ ("hdr" ∷ "parent_task" ∷ [], parent_comm k)
    ∷ rest

abbrev pub event_ipv4 : Kernel → ℕ → ℕ → ℕ → ℕ → ℕ → List Assignment
event_ipv4 k cg action point sock_ptr daddr = header k cg blocked_ipv4 (
    ("dport" ∷ [], le_bytes 2 (bswap16 (sin_port k daddr)))
    ∷ ("src" ∷ [], src_addr4 k sock_ptr)
    ∷ ("dst" ∷ [], core_read k sockaddr_in ("sin_addr" ∷ []) daddr)
    ∷ ("operation" ∷ [], le_bytes 1 point)
    ∷ ("action" ∷ [], le_bytes 1 action)
    ∷ ("sock_type" ∷ [], le_bytes 1 (sock_type k sock_ptr))
    ∷ [])

abbrev pub event_ipv6 : Kernel → ℕ → ℕ → ℕ → ℕ → ℕ → List Assignment
event_ipv6 k cg action point sock_ptr daddr = header k cg blocked_ipv6 (
    ("dport" ∷ [], le_bytes 2 (bswap16 (sin6_port k daddr)))
    ∷ ("src" ∷ [], src_addr6 k sock_ptr)
    ∷ ("dst" ∷ [], core_read k sockaddr_in6 ("sin6_addr" ∷ []) daddr)
    ∷ ("operation" ∷ [], le_bytes 1 point)
    ∷ ("action" ∷ [], le_bytes 1 action)
    ∷ ("sock_type" ∷ [], le_bytes 1 (sock_type k sock_ptr))
    ∷ [])

-- The bytes of the event that is sent.
unfoldable pub report_ipv4_event : Kernel → ℕ → ℕ → ℕ → ℕ → ℕ → List ℕ
report_ipv4_event k cg action point sock_ptr daddr =
    assign audit_event_ipv4 (event_ipv4 k cg action point sock_ptr daddr) (zeroed audit_event_ipv4)

unfoldable pub report_ipv6_event : Kernel → ℕ → ℕ → ℕ → ℕ → ℕ → List ℕ
report_ipv6_event k cg action point sock_ptr daddr =
    assign audit_event_ipv6 (event_ipv6 k cg action point sock_ptr daddr) (zeroed audit_event_ipv6)

-- In some cases, such as getaddrinfo(), the port is 0: no communication occurs.
unfoldable pub is_destination_port_zero_v4 : Kernel → ℕ → Bool
is_destination_port_zero_v4 k inet_addr = bswap16 (sin_port k inet_addr) == 0

unfoldable pub is_destination_port_zero_v6 : Kernel → ℕ → Bool
is_destination_port_zero_v6 k inet_addr = bswap16 (sin6_port k inet_addr) == 0
