-- ===== src/Audit/Network/Delivered.antt =====
-- Every event of pkg/bpf/c/restricted-network.bpf.c reaches pkg/audit/network/audit.go in one piece.
use bouheki.Prelude.{
  ℕ, ◌<◌, ◌≡◌, List, [], ◌∷◌, Bool, true, false, ◌&&◌, not, if◌then◌else◌, ◌==◌, inr, arith, pos,
  is_zero,
}
use bouheki.Kernel.{Kernel, IsKernel}
use bouheki.Common.{connect}
use bouheki.Network.Structs.{action_block, action_monitor, af_inet}
use bouheki.Network.Connect.{Maps, is_block, is_monitor, report, sa_family, socket_connect}
use bouheki.Network.Policy.{passed_over, verdict}
use bouheki.Network.Event.{events-socket_connect}
use bouheki.Audit.Network.{DetectEvent, detect_event_ipv4, detect_event_ipv6, parse_event}
use bouheki.Audit.Network.Parts.{sent_header}
use bouheki.Audit.Network.Ipv4.{parse_event-report_ipv4_event, sent_body_ipv4}
use bouheki.Audit.Network.Ipv6.{parse_event-report_ipv6_event, sent_body_ipv6}

-- The body for the family of the address.
abbrev pub sent_body : Kernel → Bool → ℕ → ℕ → ℕ → DetectEvent
sent_body k is_ipv4 action sock_ptr address =
    if is_ipv4
    then detect_event_ipv4 (sent_body_ipv4 k action connect sock_ptr address)
    else detect_event_ipv6 (sent_body_ipv6 k action connect sock_ptr address)

-- Each event is read back as the identity of the current process and the connection, with an action.
abbrev pub Delivered : Kernel → Bool → ℕ → ℕ → List (List ℕ) → Type 0
Delivered k is_ipv4 sock_ptr address [] = Unit
Delivered k is_ipv4 sock_ptr address (event ∷ events) =
    ((action : ℕ) × (parse_event event
        ≡ inr (
          sent_header k k.current_cgroup_id (if is_ipv4 then pos 0 else pos 1),
          sent_body k is_ipv4 action sock_ptr address,
        )))
    × Delivered k is_ipv4 sock_ptr address events

parse_event-report :
    (k : Kernel) (is_ipv4 : Bool) (action sock_ptr address : ℕ)
    → IsKernel k
    → action < 256
    → parse_event (report k is_ipv4 action sock_ptr address)
      ≡ inr (
        sent_header k k.current_cgroup_id (if is_ipv4 then pos 0 else pos 1),
        sent_body k is_ipv4 action sock_ptr address,
      )
unfolding report
parse_event-report k true action sock_ptr address s bound =
    parse_event-report_ipv4_event k s k.current_cgroup_id action connect sock_ptr address
      s.current_cgroup_id_bound bound (omega arith)
parse_event-report k false action sock_ptr address s bound =
    parse_event-report_ipv6_event k s k.current_cgroup_id action connect sock_ptr address
      s.current_cgroup_id_bound bound (omega arith)

Delivered-if :
    (k : Kernel) (v4 : Bool) (sock_ptr address : ℕ) (b : Bool) (xs ys : List (List ℕ))
    → Delivered k v4 sock_ptr address xs
    → Delivered k v4 sock_ptr address ys
    → Delivered k v4 sock_ptr address (if b then xs else ys)
Delivered-if k v4 sock_ptr address true xs ys hx hy = hx
Delivered-if k v4 sock_ptr address false xs ys hx hy = hy

-- Every event of a connection is read back without an error, with the identity of the current
-- process and, for the family of the address, both ends of the connection.
pub Delivered-socket_connect :
    (k : Kernel) (m : Maps) (uninit sock_ptr address : ℕ)
    → IsKernel k
    → Delivered k
        (sa_family k address == af_inet)
        sock_ptr
        address
        (socket_connect k m uninit sock_ptr address).events
Delivered-socket_connect k m uninit sock_ptr address s =
    let v4 = sa_family k address == af_inet in
    let config = m.network_bouheki_config_map 0 in
    rw (events-socket_connect k m uninit sock_ptr address s) (
      Delivered-if k v4 sock_ptr address (passed_over k m address) [] _ tt (
        Delivered-if k v4 sock_ptr address (is_monitor config)
          (report k v4 action_monitor sock_ptr address ∷ []) _
          (
            (
              action_monitor,
              parse_event-report k v4 action_monitor sock_ptr address s (omega arith),
            ),
            tt,
          )
          (Delivered-if k v4 sock_ptr address
            (not (is_zero (verdict k m address)) && is_block config)
            (report k v4 action_block sock_ptr address ∷ []) []
            (
              (action_block, parse_event-report k v4 action_block sock_ptr address s (omega arith)),
              tt,
            )
            tt)))
