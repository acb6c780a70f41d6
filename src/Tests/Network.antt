-- ===== src/Tests/Network.antt =====
-- The program of Network/Connect.antt on a concrete kernel and concrete maps: the process curl, of
-- user 1000 and group 100, connects to port 443.
use bouheki.Prelude.{◌≡◌, refl, true, false, some, inl, inr, length, negsuc, ◌==◌, if◌then◌else◌}
use bouheki.Buffer.{from_le_bytes, le_bytes, offset_of}
use bouheki.Buffer.Members.{Holds}
use bouheki.Network.Structs.{action_block, audit_event_ipv4, audit_event_ipv6, bswap16}
use bouheki.Network.Report.{
  is_destination_port_zero_v4, report_ipv4_event, report_ipv6_event, sin_port,
}
use bouheki.Network.Connect.{Maps, sa_family, socket_connect}
use bouheki.Network.Policy.{passed_over}
use bouheki.Network.Decision.{decision, socket_connect-eq-decision, uninit_irrelevant}
use bouheki.Network.Lists.{allowed_gid_list_irrelevant, denied_process_refused}
use bouheki.Network.Packet.{
  reported_ipv4, reported_ipv6, report_ipv4_event-Holds, report_ipv6_event-Holds,
}
use bouheki.Tests.Kernel.{ipv4_address, ipv6_address, kernel, kernel-IsKernel}

-- mode block on the host: every range is allowed, user 1000 is denied
abbrev pub maps : Maps
maps = record {
  network_bouheki_config_map =
      λ i. some (record { mode = 1; target = 0; has_allow_command = 0; has_allow_uid = 0 });
  allowed_command_list = λ comm. false;
  denied_command_list = λ comm. false;
  allowed_uid_list = λ uid. false;
  denied_uid_list = λ uid. uid == 1000;
  allowed_gid_list = λ gid. false;
  denied_gid_list = λ gid. false;
  denied_v4_cidr_list = λ key. false;
  denied_v6_cidr_list = λ key. false;
  allowed_v4_cidr_list = λ key. true;
  allowed_v6_cidr_list = λ key. true;
}

-- the connection is tested, for either family
tested : passed_over kernel maps ipv4_address ≡ false
unfolding sa_family is_destination_port_zero_v4 bswap16 sin_port from_le_bytes le_bytes offset_of
tested = refl

socket_connect-eq-decision_example :
    socket_connect kernel maps 0 300 ipv6_address ≡ decision kernel maps 300 ipv6_address
socket_connect-eq-decision_example =
    socket_connect-eq-decision kernel kernel-IsKernel maps 0 300 ipv6_address

uninit_irrelevant_example :
    socket_connect kernel maps 0 300 ipv6_address ≡ socket_connect kernel maps 77 300 ipv6_address
uninit_irrelevant_example = uninit_irrelevant kernel maps 0 77 300 ipv6_address kernel-IsKernel

denied_process_refused_example : (socket_connect kernel maps 0 300 ipv4_address).ret ≡ negsuc 0
denied_process_refused_example =
    denied_process_refused kernel kernel-IsKernel maps 0 300 ipv4_address (inr (inl refl)) tested
      refl

outside : (if sa_family kernel ipv4_address == 10 then false else false) ≡ false
unfolding sa_family from_le_bytes le_bytes offset_of
outside = refl

allowed_gid_list_irrelevant_example :
    (socket_connect kernel maps 0 300 ipv4_address).ret
    ≡ (socket_connect kernel
        (record maps { allowed_gid_list = λ gid. gid == 7 })
        0
        300
        ipv4_address).ret
allowed_gid_list_irrelevant_example =
    allowed_gid_list_irrelevant kernel kernel-IsKernel maps 0 300 ipv4_address (λ gid. gid == 7)
      outside

report_ipv4_event-Holds_example :
    (length (report_ipv4_event kernel 5 action_block 0 300 ipv4_address) ≡ 136)
    × Holds audit_event_ipv4
        (reported_ipv4 kernel 5 action_block 0 300 ipv4_address)
        (report_ipv4_event kernel 5 action_block 0 300 ipv4_address)
report_ipv4_event-Holds_example =
    report_ipv4_event-Holds kernel kernel-IsKernel 5 action_block 0 300 ipv4_address

report_ipv6_event-Holds_example :
    (length (report_ipv6_event kernel 5 action_block 0 300 ipv6_address) ≡ 160)
    × Holds audit_event_ipv6
        (reported_ipv6 kernel 5 action_block 0 300 ipv6_address)
        (report_ipv6_event kernel 5 action_block 0 300 ipv6_address)
report_ipv6_event-Holds_example =
    report_ipv6_event-Holds kernel kernel-IsKernel 5 action_block 0 300 ipv6_address
