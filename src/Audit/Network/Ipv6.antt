-- ===== src/Audit/Network/Ipv6.antt =====
-- An event for an IPv6 address, from pkg/bpf/c/restricted-network.bpf.c to
-- pkg/audit/network/audit.go.
use bouheki.Prelude.{ℕ, ◌+◌, ◌%◌, ◌^◌, ◌<◌, ◌≡◌, refl, [], ◌∷◌, arith, pos, inr, take, drop}
use bouheki.Buffer.{offset_of, size_of}
use bouheki.Buffer.Bytes.{from_le_bytes-le_bytes}
use bouheki.Kernel.{Kernel, IsKernel, core_read}
use bouheki.Kernel.Types.Socket.{sockaddr_in6}
use bouheki.Common.Container.{current_pid}
use bouheki.Network.Structs.{src_addr6}
use bouheki.Network.Report.{report_ipv6_event, sock_type}
use bouheki.Network.Packet.{report_ipv6_event-Holds}
use bouheki.Audit.Binary.{int32-int_pattern}
use bouheki.Audit.Network.{Body, decode_body, decode_header, detect_event_ipv6, parse_event}
use bouheki.Audit.Network.Parts.{
  big_endian, from_le_bytes-byte, from_le_bytes-swapped, parse_event-parts, read-body,
  read_at-field, sent_header,
}

abbrev pub sent_body_ipv6 : Kernel → ℕ → ℕ → ℕ → ℕ → Body
sent_body_ipv6 k action point sock_ptr daddr = record {
  src_ip = src_addr6 k sock_ptr;
  dst_ip = core_read k sockaddr_in6 ("sin6_addr" ∷ []) daddr;
  dst_port = big_endian (k.load (daddr + offset_of sockaddr_in6 ("sin6_port" ∷ [])) 2);
  lsm_hook_point = point;
  action = action;
  sock_type = sock_type k sock_ptr % 256;
}

module _ (k : Kernel) (s : IsKernel k) (cg action point sock_ptr daddr : ℕ) (cg_bound : cg < 2 ^ 64)
    (action_bound : action < 256) (point_bound : point < 256) where
  header_ipv6 :
      decode_header (report_ipv6_event k cg action point sock_ptr daddr) ≡ sent_header k cg (pos 1)
  unfolding decode_header offset_of size_of
  header_ipv6 =
      let held = (report_ipv6_event-Holds k s cg action point sock_ptr daddr).1 in
      rw
        (
          held.1.0,
          held.1.1.0,
          held.1.1.1.0,
          held.0,
          held.1.1.1.1.0,
          held.1.1.1.1.1.0,
          from_le_bytes-le_bytes 8 cg cg_bound,
          from_le_bytes-le_bytes 4 (current_pid k)
              (let h = s.current_pid_tgid_bound in omega arith),
          int32-int_pattern (pos 1) (omega arith),
        )
        refl

  body_ipv6 :
      decode_body 16 (take 37 (drop 120 (report_ipv6_event k cg action point sock_ptr daddr)))
      ≡ sent_body_ipv6 k action point sock_ptr daddr
  unfolding decode_body offset_of size_of
  body_ipv6 =
      let held = (report_ipv6_event-Holds k s cg action point sock_ptr daddr).1.1.1.1.1.1.1 in
      let event = report_ipv6_event k cg action point sock_ptr daddr in
      rw
        (
          read_at-field 0 16 37 120 event (omega arith),
          read_at-field 16 16 37 120 event (omega arith),
          read_at-field 32 2 37 120 event (omega arith),
          read_at-field 34 1 37 120 event (omega arith),
          read_at-field 35 1 37 120 event (omega arith),
          read_at-field 36 1 37 120 event (omega arith),
          held.1.0,
          held.1.1.0,
          held.0,
          held.1.1.1.0,
          held.1.1.1.1.0,
          held.1.1.1.1.1.0,
          from_le_bytes-swapped (k.load (daddr + offset_of sockaddr_in6 ("sin6_port" ∷ [])) 2),
          from_le_bytes-le_bytes 1 point (omega arith),
          from_le_bytes-le_bytes 1 action (omega arith),
          from_le_bytes-byte (sock_type k sock_ptr),
        )
        refl

  -- The event that the program sends for an IPv6 address is read back without an error: the header
  -- is the identity of the process, the body has both addresses, the port, the operation, the
  -- action and the lowest byte of the type of the socket.
  pub parse_event-report_ipv6_event :
      parse_event (report_ipv6_event k cg action point sock_ptr daddr)
      ≡ inr (
        sent_header k cg (pos 1),
        detect_event_ipv6 (sent_body_ipv6 k action point sock_ptr daddr),
      )
  parse_event-report_ipv6_event =
      let event = report_ipv6_event k cg action point sock_ptr daddr in
      let size = (report_ipv6_event-Holds k s cg action point sock_ptr daddr).0 in
      rw
        (
          parse_event-parts event (sent_header k cg (pos 1)) (omega arith) header_ipv6,
          read-body event 37 (omega arith) (omega arith),
          body_ipv6,
        )
        refl
