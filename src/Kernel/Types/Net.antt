-- ===== src/Kernel/Types/Net.antt =====
-- Sockets and their protocol part. (pkg/bpf/c/vmlinux.h, lines 8741 to 9094.)
use bouheki.CType.{CType, array, struct, union, end, bits, ◌⨾◌, ◌∶◌}
use bouheki.Kernel.Types.Base.{
  __s32, __u16, __u32, __u64, __u8, atomic64_t, atomic_t, gfp_t, u16, u32, u64, u8,
}
use bouheki.Kernel.Types.Fs.{wait_queue_head_t}
use bouheki.Kernel.Types.Locks.{callback_head, hlist_node, refcount_t, rwlock_t, spinlock_t}
use bouheki.Kernel.Types.Ns.{timer_list}
use bouheki.Kernel.Types.Parts.{kuid_t, page_frag}
use bouheki.Kernel.Types.Scalars.{char, int, long, pointer, short}
use bouheki.Kernel.Types.Sched.{ktime_t, rb_root}

abbrev pub __be16 : CType
__be16 = __u16

abbrev pub __be32 : CType
__be32 = __u32

abbrev pub __addrpair : CType
__addrpair = __u64

abbrev pub __portpair : CType
__portpair = __u32

abbrev pub possible_net_t : CType
possible_net_t = struct ("net" ∶ pointer ⨾ end)

abbrev pub in6_addr : CType
in6_addr = struct (
    "in6_u"
      ∶ union (
          "u6_addr8" ∶ array __u8 16
          ⨾ "u6_addr16" ∶ array __be16 8
          ⨾ "u6_addr32" ∶ array __be32 4
          ⨾ end)
    ⨾ end)

abbrev pub hlist_nulls_node : CType
hlist_nulls_node = struct ("next" ∶ pointer ⨾ "pprev" ∶ pointer ⨾ end)

abbrev pub sock_common : CType
sock_common = struct (
    ""
      ∶ union (
          "skc_addrpair" ∶ __addrpair
          ⨾ "" ∶ struct ("skc_daddr" ∶ __be32 ⨾ "skc_rcv_saddr" ∶ __be32 ⨾ end)
          ⨾ end)
    ⨾ "" ∶ union ("skc_hash" ∶ int ⨾ "skc_u16hashes" ∶ array __u16 2 ⨾ end)
    ⨾ ""
      ∶ union (
          "skc_portpair" ∶ __portpair
          ⨾ "" ∶ struct ("skc_dport" ∶ __be16 ⨾ "skc_num" ∶ __u16 ⨾ end)
          ⨾ end)
    ⨾ "skc_family" ∶ short
    ⨾ "skc_state" ∶ char
    ⨾ bits "skc_reuse" 1 4
    ⨾ bits "skc_reuseport" 1 1
    ⨾ bits "skc_ipv6only" 1 1
    ⨾ bits "skc_net_refcnt" 1 1
    ⨾ "skc_bound_dev_if" ∶ int
    ⨾ "" ∶ union ("skc_bind_node" ∶ hlist_node ⨾ "skc_portaddr_node" ∶ hlist_node ⨾ end)
    ⨾ "skc_prot" ∶ pointer
    ⨾ "skc_net" ∶ possible_net_t
    ⨾ "skc_v6_daddr" ∶ in6_addr
    ⨾ "skc_v6_rcv_saddr" ∶ in6_addr
    ⨾ "skc_cookie" ∶ atomic64_t
    ⨾ "" ∶ union ("skc_flags" ∶ long ⨾ "skc_listener" ∶ pointer ⨾ "skc_tw_dr" ∶ pointer ⨾ end)
    ⨾ "skc_dontcopy_begin" ∶ array int 0
    ⨾ "" ∶ union ("skc_node" ∶ hlist_node ⨾ "skc_nulls_node" ∶ hlist_nulls_node ⨾ end)
    ⨾ "skc_tx_queue_mapping" ∶ short
    ⨾ "skc_rx_queue_mapping" ∶ short
    ⨾ "" ∶ union ("skc_incoming_cpu" ∶ int ⨾ "skc_rcv_wnd" ∶ u32 ⨾ "skc_tw_rcv_nxt" ∶ u32 ⨾ end)
    ⨾ "skc_refcnt" ∶ refcount_t
    ⨾ "skc_dontcopy_end" ∶ array int 0
    ⨾ "" ∶ union ("skc_rxhash" ∶ u32 ⨾ "skc_window_clamp" ∶ u32 ⨾ "skc_tw_snd_nxt" ∶ u32 ⨾ end)
    ⨾ end)

abbrev pub socket_lock_t : CType
socket_lock_t = struct ("slock" ∶ spinlock_t ⨾ "owned" ∶ int ⨾ "wq" ∶ wait_queue_head_t ⨾ end)

abbrev pub sk_buff_head : CType
sk_buff_head =
    struct ("next" ∶ pointer ⨾ "prev" ∶ pointer ⨾ "qlen" ∶ __u32 ⨾ "lock" ∶ spinlock_t ⨾ end)

abbrev pub netdev_features_t : CType
netdev_features_t = u64

abbrev pub sock_cgroup_data : CType
sock_cgroup_data = struct (
    ""
      ∶ union (
          ""
            ∶ struct (
                bits "is_data" 1 1
                ⨾ bits "no_refcnt" 1 1
                ⨾ bits "unused" 1 6
                ⨾ "padding" ∶ u8
                ⨾ "prioidx" ∶ u16
                ⨾ "classid" ∶ u32
                ⨾ end)
          ⨾ "val" ∶ u64
          ⨾ end)
    ⨾ end)

abbrev pub sock : CType
sock = struct (
    "__sk_common" ∶ sock_common
    ⨾ "sk_lock" ∶ socket_lock_t
    ⨾ "sk_drops" ∶ atomic_t
    ⨾ "sk_rcvlowat" ∶ int
    ⨾ "sk_error_queue" ∶ sk_buff_head
    ⨾ "sk_rx_skb_cache" ∶ pointer
    ⨾ "sk_receive_queue" ∶ sk_buff_head
    ⨾ "sk_backlog"
      ∶ struct ("rmem_alloc" ∶ atomic_t ⨾ "len" ∶ int ⨾ "head" ∶ pointer ⨾ "tail" ∶ pointer ⨾ end)
    ⨾ "sk_forward_alloc" ∶ int
    ⨾ "sk_ll_usec" ∶ int
    ⨾ "sk_napi_id" ∶ int
    ⨾ "sk_rcvbuf" ∶ int
    ⨾ "sk_filter" ∶ pointer
    ⨾ "" ∶ union ("sk_wq" ∶ pointer ⨾ "sk_wq_raw" ∶ pointer ⨾ end)
    ⨾ "sk_policy" ∶ array pointer 2
    ⨾ "sk_rx_dst" ∶ pointer
    ⨾ "sk_dst_cache" ∶ pointer
    ⨾ "sk_omem_alloc" ∶ atomic_t
    ⨾ "sk_sndbuf" ∶ int
    ⨾ "sk_wmem_queued" ∶ int
    ⨾ "sk_wmem_alloc" ∶ refcount_t
    ⨾ "sk_tsq_flags" ∶ long
    ⨾ "" ∶ union ("sk_send_head" ∶ pointer ⨾ "tcp_rtx_queue" ∶ rb_root ⨾ end)
    ⨾ "sk_tx_skb_cache" ∶ pointer
    ⨾ "sk_write_queue" ∶ sk_buff_head
    ⨾ "sk_peek_off" ∶ __s32
    ⨾ "sk_write_pending" ∶ int
    ⨾ "sk_dst_pending_confirm" ∶ __u32
    ⨾ "sk_pacing_status" ∶ u32
    ⨾ "sk_sndtimeo" ∶ long
    ⨾ "sk_timer" ∶ timer_list
    ⨾ "sk_priority" ∶ __u32
    ⨾ "sk_mark" ∶ __u32
    ⨾ "sk_pacing_rate" ∶ long
    ⨾ "sk_max_pacing_rate" ∶ long
    ⨾ "sk_frag" ∶ page_frag
    ⨾ "sk_route_caps" ∶ netdev_features_t
    ⨾ "sk_route_nocaps" ∶ netdev_features_t
    ⨾ "sk_route_forced_caps" ∶ netdev_features_t
    ⨾ "sk_gso_type" ∶ int
    ⨾ "sk_gso_max_size" ∶ int
    ⨾ "sk_allocation" ∶ gfp_t
    ⨾ "sk_txhash" ∶ __u32
    ⨾ bits "sk_padding" 1 1
    ⨾ bits "sk_kern_sock" 1 1
    ⨾ bits "sk_no_check_tx" 1 1
    ⨾ bits "sk_no_check_rx" 1 1
    ⨾ bits "sk_userlocks" 1 4
    ⨾ "sk_pacing_shift" ∶ u8
    ⨾ "sk_type" ∶ u16
    ⨾ "sk_protocol" ∶ u16
    ⨾ "sk_gso_max_segs" ∶ u16
    ⨾ "sk_lingertime" ∶ long
    ⨾ "sk_prot_creator" ∶ pointer
    ⨾ "sk_callback_lock" ∶ rwlock_t
    ⨾ "sk_err" ∶ int
    ⨾ "sk_err_soft" ∶ int
    ⨾ "sk_ack_backlog" ∶ u32
    ⨾ "sk_max_ack_backlog" ∶ u32
    ⨾ "sk_uid" ∶ kuid_t
    ⨾ "sk_prefer_busy_poll" ∶ u8
    ⨾ "sk_busy_poll_budget" ∶ u16
    ⨾ "sk_peer_pid" ∶ pointer
    ⨾ "sk_peer_cred" ∶ pointer
    ⨾ "sk_rcvtimeo" ∶ long
    ⨾ "sk_stamp" ∶ ktime_t
    ⨾ "sk_tsflags" ∶ u16
    ⨾ "sk_shutdown" ∶ u8
    ⨾ "sk_tskey" ∶ u32
    ⨾ "sk_zckey" ∶ atomic_t
    ⨾ "sk_clockid" ∶ u8
    ⨾ bits "sk_txtime_deadline_mode" 1 1
    ⨾ bits "sk_txtime_report_errors" 1 1
    ⨾ bits "sk_txtime_unused" 1 6
    ⨾ "sk_socket" ∶ pointer
    ⨾ "sk_user_data" ∶ pointer
    ⨾ "sk_security" ∶ pointer
    ⨾ "sk_cgrp_data" ∶ sock_cgroup_data
    ⨾ "sk_memcg" ∶ pointer
    ⨾ "sk_state_change" ∶ pointer
    ⨾ "sk_data_ready" ∶ pointer
    ⨾ "sk_write_space" ∶ pointer
    ⨾ "sk_error_report" ∶ pointer
    ⨾ "sk_backlog_rcv" ∶ pointer
    ⨾ "sk_validate_xmit_skb" ∶ pointer
    ⨾ "sk_destruct" ∶ pointer
    ⨾ "sk_reuseport_cb" ∶ pointer
    ⨾ "sk_bpf_storage" ∶ pointer
    ⨾ "sk_rcu" ∶ callback_head
    ⨾ end)

abbrev pub __kernel_sa_family_t : CType
__kernel_sa_family_t = short

abbrev pub sa_family_t : CType
sa_family_t = __kernel_sa_family_t

abbrev pub sockaddr : CType
sockaddr = struct ("sa_family" ∶ sa_family_t ⨾ "sa_data" ∶ array char 14 ⨾ end)
