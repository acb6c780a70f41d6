-- ===== src/Audit/Network/Log.antt =====
-- pkg/audit/network/audit.go and helper.go: how an event is put into a log entry. A text is the list
-- of its bytes. What `net.ParseIP(…).String()` of Go makes of a text is a parameter.
use bouheki.Prelude.{
  ℕ, ◌+◌, ◌-◌, ◌/◌, ◌%◌, List, [], ◌∷◌, ◌++◌, String, Bool, true, false, if◌then◌else◌, ◌==◌, ltb,
  map,
}
use bouheki.Audit.Helpers.{comm_to_string, nodename_to_string}
use bouheki.Audit.Network.{
  Body, DetectEvent, EventHeader, blocked_ipv6, detect_event_ipv4, detect_event_ipv6, equals,
}
use bouheki.Audit.Dns.{Result, failed, panicked, returned}
use bouheki.Audit.Dns.Proxy.{DnsCache, cached}

-- `%d` of a byte
abbrev pub decimal : ℕ → List ℕ
decimal b =
    if ltb b 10
    then (b'0' + b) ∷ []
    else if ltb b 100
    then (b'0' + b / 10) ∷ (b'0' + b % 10) ∷ []
    else (b'0' + b / 100) ∷ (b'0' + b / 10 % 10) ∷ (b'0' + b % 10) ∷ []

abbrev pub hex_digit : ℕ → ℕ
hex_digit d = if ltb d 10 then b'0' + d else b'a' + d - 10

-- `%02x` of a byte
abbrev pub hex : ℕ → List ℕ
hex b = hex_digit (b / 16) ∷ hex_digit (b % 16) ∷ []

-- strings.Join
abbrev pub join : ℕ → List (List ℕ) → List ℕ
join separator [] = []
join separator (s ∷ []) = s
join separator (s ∷ t ∷ rest) = s ++ separator ∷ join separator (t ∷ rest)

unfoldable pub byte_to_ipv4 : List ℕ → List ℕ
byte_to_ipv4 addr_bytes = join b'.' (map decimal addr_bytes)

-- The groups of two bytes; `t` is what an odd byte at the end leaves, which is dropped.
abbrev pub groups : List ℕ → List (List ℕ)
groups [] = []
groups (a ∷ []) = []
groups (a ∷ b ∷ rest) = (hex a ++ hex b) ∷ groups rest

unfoldable pub byte_to_ipv6 : List ℕ → List ℕ
byte_to_ipv6 addr_bytes = join b':' (groups addr_bytes)

abbrev pub tcp : ℕ
tcp = 1

abbrev pub udp : ℕ
udp = 2

abbrev pub sock_type_to_protocol_name : ℕ → String
sock_type_to_protocol_name sock_type =
    if sock_type == tcp then "TCP" else if sock_type == udp then "UDP" else "UNKOWN"

-- ActionResult, of both types of events
abbrev pub action_result : ℕ → String
action_result action =
    if action == 0 then "MONITOR" else if action == 1 then "BLOCKED" else "UNKNOWN"

-- log.RestrictedNetworkLog with its AuditEventLog
pub record RestrictedNetworkLog : Type 0 where
  pub action : String
  pub hostname : List ℕ
  pub pid : ℕ
  pub comm : List ℕ
  pub parent_comm : List ℕ
  pub addr : List ℕ
  pub domain : List ℕ
  pub port : ℕ
  pub protocol : String

abbrev pub log_entry : DnsCache → EventHeader → Body → List ℕ → RestrictedNetworkLog
log_entry dns_cache header body addr = record {
  action = action_result body.action;
  hostname = nodename_to_string header.nodename;
  pid = header.pid;
  comm = comm_to_string header.command;
  parent_comm = comm_to_string header.parent_command;
  addr = addr;
  domain = cached addr dns_cache;
  port = body.dst_port;
  protocol = sock_type_to_protocol_name body.sock_type;
}

module _ (canonical : List ℕ → List ℕ) where
  abbrev pub ipv6_entry : DnsCache → EventHeader → DetectEvent → Result RestrictedNetworkLog
  ipv6_entry dns_cache header (detect_event_ipv4 body) = panicked
  ipv6_entry dns_cache header (detect_event_ipv6 body) =
      returned (log_entry dns_cache header body (canonical (byte_to_ipv6 body.dst_ip)))

  abbrev pub ipv4_entry : DnsCache → EventHeader → DetectEvent → Result RestrictedNetworkLog
  ipv4_entry dns_cache header (detect_event_ipv6 body) = panicked
  ipv4_entry dns_cache header (detect_event_ipv4 body) =
      returned (log_entry dns_cache header body (byte_to_ipv4 body.dst_ip))

  -- newAuditLog; the assertion of the type of the body panics if it is the other one.
  unfoldable pub new_audit_log : DnsCache → EventHeader → DetectEvent → Result RestrictedNetworkLog
  new_audit_log dns_cache header body =
      if equals header.event_type blocked_ipv6
      then ipv6_entry dns_cache header body
      else ipv4_entry dns_cache header body

  is_returned : Result RestrictedNetworkLog → Bool
  is_returned (returned entry) = true
  is_returned failed = false
  is_returned panicked = false
