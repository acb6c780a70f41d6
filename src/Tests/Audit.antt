-- ===== src/Tests/Audit.antt =====
-- The events of the programs on the concrete kernel, read by the user-space side of pkg/audit.
use bouheki.Prelude.{◌==◌, ℕ, ◌≡◌, refl, List, [], ◌∷◌, inr, pos, arith}
use bouheki.Network.Structs.{action_block, af_inet}
use bouheki.Network.Report.{report_ipv4_event, report_ipv6_event}
use bouheki.Common.Strings.{cstring}
use bouheki.File.{restricted_file_open}
use bouheki.File.Policy.{opened}
use bouheki.Mount.{restricted_mount, source_path_of}
use bouheki.Audit.FileAccess as FileAudit
use bouheki.Audit.FileAccess.Logged as FileLogged
use bouheki.Audit.Mount as MountAudit
use bouheki.Audit.Mount.Logged as MountLogged
use bouheki.Audit.Network.{detect_event_ipv4, detect_event_ipv6}
use bouheki.Audit.Network as NetworkAudit
use bouheki.Audit.Network.Parts.{sent_header}
use bouheki.Audit.Network.Ipv4.{sent_body_ipv4, parse_event-report_ipv4_event}
use bouheki.Audit.Network.Ipv6.{sent_body_ipv6, parse_event-report_ipv6_event}
use bouheki.Tests.Kernel.{
  in_container, in_order, in_order-IsForEach, ipv4_address, ipv6_address, kernel, kernel-IsKernel,
}
use bouheki.Tests.Network as NetworkTests
use bouheki.Audit.Network.Delivered.{Delivered, Delivered-socket_connect}
use bouheki.Network.Connect.{sa_family, socket_connect}
use bouheki.Tests.File as FileTests
use bouheki.Tests.Mount as MountTests

new_audit_log-restricted_file_open_example :
    (event : List ℕ) × (entry : FileAudit.AuditLog) × ((restricted_file_open kernel in_order
        (FileTests.maps FileTests.deny_etc)
        0).events
      ≡ event ∷ [])
    × (FileAudit.parse_event event ≡ inr entry)
    × ((FileAudit.new_audit_log entry).path ≡ cstring (opened kernel 0).1)
    × ((FileAudit.new_audit_log entry).action ≡ "BLOCKED")
new_audit_log-restricted_file_open_example =
    FileLogged.new_audit_log-restricted_file_open in_order in_order-IsForEach kernel
      (FileTests.maps FileTests.deny_etc) 0 kernel-IsKernel refl refl

new_audit_log-restricted_mount_example :
    (event : List ℕ) × (entry : MountAudit.AuditLog) × ((restricted_mount kernel in_order
        (MountTests.maps MountTests.deny_etc)
        0).events
      ≡ event ∷ [])
    × (MountAudit.parse_event event ≡ inr entry)
    × ((MountAudit.new_audit_log entry).source_path ≡ cstring (source_path_of kernel 0))
    × ((MountAudit.new_audit_log entry).action ≡ "BLOCKED")
unfolding source_path_of
new_audit_log-restricted_mount_example =
    MountLogged.new_audit_log-restricted_mount in_order in_order-IsForEach kernel
      (MountTests.maps MountTests.deny_etc) 0 kernel-IsKernel in_container

parse_event-report_ipv4_event_example :
    NetworkAudit.parse_event (report_ipv4_event kernel 5 action_block 0 300 ipv4_address)
    ≡ inr (
      sent_header kernel 5 (pos 0),
      detect_event_ipv4 (sent_body_ipv4 kernel action_block 0 300 ipv4_address),
    )
parse_event-report_ipv4_event_example =
    parse_event-report_ipv4_event kernel kernel-IsKernel 5 action_block 0 300 ipv4_address
      (omega arith) (omega arith) (omega arith)

parse_event-report_ipv6_event_example :
    NetworkAudit.parse_event (report_ipv6_event kernel 5 action_block 0 300 ipv6_address)
    ≡ inr (
      sent_header kernel 5 (pos 1),
      detect_event_ipv6 (sent_body_ipv6 kernel action_block 0 300 ipv6_address),
    )
parse_event-report_ipv6_event_example =
    parse_event-report_ipv6_event kernel kernel-IsKernel 5 action_block 0 300 ipv6_address
      (omega arith) (omega arith) (omega arith)

Delivered-socket_connect_example :
    Delivered kernel
      (sa_family kernel ipv4_address == af_inet)
      300
      ipv4_address
      (socket_connect kernel NetworkTests.maps 0 300 ipv4_address).events
Delivered-socket_connect_example =
    Delivered-socket_connect kernel NetworkTests.maps 0 300 ipv4_address kernel-IsKernel
