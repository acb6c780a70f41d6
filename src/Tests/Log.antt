-- ===== src/Tests/Log.antt =====
-- Log entries of the network audit on the concrete kernel.
use bouheki.Prelude.{◌≡◌, [], ◌∷◌, pos, arith}
use bouheki.Network.Report.{report_ipv4_event}
use bouheki.Audit.Network.{detect_event_ipv4}
use bouheki.Audit.Network.Parts.{sent_header}
use bouheki.Audit.Network.Ipv4.{sent_body_ipv4, parse_event-report_ipv4_event}
use bouheki.Audit.Network.Log.{byte_to_ipv4, log_entry, new_audit_log}
use bouheki.Audit.Network.Printed.{new_audit_log-parse_event, numbers, numbers-byte_to_ipv4}
use bouheki.Audit.Dns.{returned}
use bouheki.Tests.Kernel.{ipv4_address, kernel, kernel-IsKernel}

-- The destination 1.187.0.0 of a log entry is text, and reads back.
numbers-byte_to_ipv4_example :
    numbers 0 (byte_to_ipv4 (1 ∷ 187 ∷ 0 ∷ 0 ∷ [])) ≡ 1 ∷ 187 ∷ 0 ∷ 0 ∷ []
numbers-byte_to_ipv4_example =
    numbers-byte_to_ipv4 1 (187 ∷ 0 ∷ 0 ∷ [])
      (omega arith, (omega arith, (omega arith, (omega arith, tt))))

new_audit_log-parse_event_example :
    new_audit_log
      (λ text. text)
      []
      (sent_header kernel 5 (pos 0))
      (detect_event_ipv4 (sent_body_ipv4 kernel 1 0 300 ipv4_address))
    ≡ returned (
        log_entry []
          (sent_header kernel 5 (pos 0))
          (sent_body_ipv4 kernel 1 0 300 ipv4_address)
          (byte_to_ipv4 (sent_body_ipv4 kernel 1 0 300 ipv4_address).dst_ip))
new_audit_log-parse_event_example =
    new_audit_log-parse_event (λ text. text) [] (report_ipv4_event kernel 5 1 0 300 ipv4_address)
      (sent_header kernel 5 (pos 0))
      (detect_event_ipv4 (sent_body_ipv4 kernel 1 0 300 ipv4_address))
      (parse_event-report_ipv4_event kernel kernel-IsKernel 5 1 0 300 ipv4_address (omega arith)
        (omega arith) (omega arith))
