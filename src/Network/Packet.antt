-- ===== src/Network/Packet.antt =====
-- What the events of pkg/bpf/c/restricted-network.bpf.c hold, as bytes in memory.
use bouheki.Prelude.{ℕ, ◌+◌, List, ◌≡◌, sym, refl, ◌∙◌, [], ◌∷◌, arith, length, length-replicate}
use bouheki.CType.{sizeof}
use bouheki.Buffer.{Assignment, le_bytes, offset_of, size_of, zeroed}
use bouheki.Buffer.Bytes.{length-le_bytes}
use bouheki.Buffer.Members.{Fits, Holds, assign-Holds, length-assign}
use bouheki.Network.Ports.{le_bytes-bswap16, swapped}
use bouheki.Kernel.Types.Socket.{sockaddr_in, sockaddr_in6}
use bouheki.Common.{task_comm_len}
use bouheki.Common.Container.{current_pid, nodename, parent_comm}
use bouheki.Kernel.{Kernel, IsKernel, core_read}
use bouheki.Common.Lengths.{length-nodename, length-parent_comm}
use bouheki.Network.Structs.{audit_event_ipv4, audit_event_ipv6, src_addr4, src_addr6}
use bouheki.Network.Report.{
  sin_port, sin6_port, sock_type, event_ipv4, event_ipv6, report_ipv4_event, report_ipv6_event,
}

-- The identity of the process, in the header of an event, and then other members.
abbrev identity : Kernel → ℕ → ℕ → List Assignment → List Assignment
identity k cg type rest =
    ("hdr" ∷ "nodename" ∷ [], nodename k)
    ∷ ("hdr" ∷ "cgroup" ∷ [], le_bytes 8 cg)
    ∷ ("hdr" ∷ "pid" ∷ [], le_bytes 4 (current_pid k))
    ∷ ("hdr" ∷ "type" ∷ [], le_bytes 4 type)
    ∷ ("hdr" ∷ "task" ∷ [], k.current_comm task_comm_len)
    ∷ ("hdr" ∷ "parent_task" ∷ [], parent_comm k)
    ∷ rest

-- All members of an IPv4 event with their values: the port is the stored one with its two bytes
-- swapped.
abbrev pub reported_ipv4 : Kernel → ℕ → ℕ → ℕ → ℕ → ℕ → List Assignment
reported_ipv4 k cg action point sock_ptr daddr = identity k cg 0 (
    ("dport" ∷ [], swapped (k.load (daddr + offset_of sockaddr_in ("sin_port" ∷ [])) 2))
    ∷ ("src" ∷ [], src_addr4 k sock_ptr)
    ∷ ("dst" ∷ [], core_read k sockaddr_in ("sin_addr" ∷ []) daddr)
    ∷ ("operation" ∷ [], le_bytes 1 point)
    ∷ ("action" ∷ [], le_bytes 1 action)
    ∷ ("sock_type" ∷ [], le_bytes 1 (sock_type k sock_ptr))
    ∷ [])

abbrev pub reported_ipv6 : Kernel → ℕ → ℕ → ℕ → ℕ → ℕ → List Assignment
reported_ipv6 k cg action point sock_ptr daddr = identity k cg 1 (
    ("dport" ∷ [], swapped (k.load (daddr + offset_of sockaddr_in6 ("sin6_port" ∷ [])) 2))
    ∷ ("src" ∷ [], src_addr6 k sock_ptr)
    ∷ ("dst" ∷ [], core_read k sockaddr_in6 ("sin6_addr" ∷ []) daddr)
    ∷ ("operation" ∷ [], le_bytes 1 point)
    ∷ ("action" ∷ [], le_bytes 1 action)
    ∷ ("sock_type" ∷ [], le_bytes 1 (sock_type k sock_ptr))
    ∷ [])

module _ (k : Kernel) (s : IsKernel k) (cg action point sock_ptr daddr : ℕ) where
  event_ipv4-Fits : Fits audit_event_ipv4 (event_ipv4 k cg action point sock_ptr daddr)
  unfolding size_of src_addr4 core_read
  event_ipv4-Fits = (
    length-nodename k s,
    (
      length-le_bytes 8 cg,
      (
        length-le_bytes 4 _,
        (
          length-le_bytes 4 0,
          (
            s.length-current_comm 16,
            (
              length-parent_comm k s,
              (
                length-le_bytes 2 _,
                (
                  s.length-probe_read_kernel _ 4,
                  (
                    s.length-probe_read_kernel _ 4,
                    (
                      length-le_bytes 1 point,
                      (length-le_bytes 1 action, (length-le_bytes 1 _, tt)),
                    ),
                  ),
                ),
              ),
            ),
          ),
        ),
      ),
    ),
  )

  event_ipv6-Fits : Fits audit_event_ipv6 (event_ipv6 k cg action point sock_ptr daddr)
  unfolding size_of src_addr6 core_read
  event_ipv6-Fits = (
    length-nodename k s,
    (
      length-le_bytes 8 cg,
      (
        length-le_bytes 4 _,
        (
          length-le_bytes 4 1,
          (
            s.length-current_comm 16,
            (
              length-parent_comm k s,
              (
                length-le_bytes 2 _,
                (
                  s.length-probe_read_kernel _ 16,
                  (
                    s.length-probe_read_kernel _ 16,
                    (
                      length-le_bytes 1 point,
                      (length-le_bytes 1 action, (length-le_bytes 1 _, tt)),
                    ),
                  ),
                ),
              ),
            ),
          ),
        ),
      ),
    ),
  )

  -- The event for an IPv4 address has the 136 bytes of its C struct, and every member holds its
  -- value: the identity of the process, both addresses, the port in the byte order of the machine,
  -- the operation, the action, and the type of the socket.
  pub report_ipv4_event-Holds :
      (length (report_ipv4_event k cg action point sock_ptr daddr) ≡ 136)
      × Holds audit_event_ipv4
          (reported_ipv4 k cg action point sock_ptr daddr)
          (report_ipv4_event k cg action point sock_ptr daddr)
  unfolding report_ipv4_event offset_of size_of sizeof sin_port
  report_ipv4_event-Holds = (
    length-assign audit_event_ipv4 (event_ipv4 k cg action point sock_ptr daddr)
          (zeroed audit_event_ipv4)
        ∙ length-replicate {A = ℕ} 136 0,
    rw
        (sym (
          le_bytes-bswap16 (k.load (daddr + offset_of sockaddr_in ("sin_port" ∷ [])) 2)
            (s.length-load _ 2) (s.byte-load _ 2)))
        (assign-Holds audit_event_ipv4 (event_ipv4 k cg action point sock_ptr daddr) 136
          (zeroed audit_event_ipv4) event_ipv4-Fits refl (omega arith)),
  )

  -- The event for an IPv6 address has the 160 bytes of its C struct, and every member holds its
  -- value: the identity of the process, both addresses, the port in the byte order of the machine,
  -- the operation, the action, and the type of the socket.
  pub report_ipv6_event-Holds :
      (length (report_ipv6_event k cg action point sock_ptr daddr) ≡ 160)
      × Holds audit_event_ipv6
          (reported_ipv6 k cg action point sock_ptr daddr)
          (report_ipv6_event k cg action point sock_ptr daddr)
  unfolding report_ipv6_event offset_of size_of sizeof sin6_port
  report_ipv6_event-Holds = (
    length-assign audit_event_ipv6 (event_ipv6 k cg action point sock_ptr daddr)
          (zeroed audit_event_ipv6)
        ∙ length-replicate {A = ℕ} 160 0,
    rw
        (sym (
          le_bytes-bswap16 (k.load (daddr + offset_of sockaddr_in6 ("sin6_port" ∷ [])) 2)
            (s.length-load _ 2) (s.byte-load _ 2)))
        (assign-Holds audit_event_ipv6 (event_ipv6 k cg action point sock_ptr daddr) 160
          (zeroed audit_event_ipv6) event_ipv6-Fits refl (omega arith)),
  )
