-- ===== src/Audit/Network.antt =====
-- pkg/audit/network/audit.go: how an event of the network program is read.
pub mod Parts
pub mod Ip
pub mod Cidr
pub mod Entries
pub mod Ranges
pub mod Covered
pub mod Writes
pub mod Trie
pub mod Masks
pub mod Ipv4
pub mod Ipv6
pub mod Manager
pub mod Delivered
pub mod Written
pub mod Setters
pub mod Groups
pub mod Log
pub mod Printed
use bouheki.Prelude.{
  ℕ, ◌+◌, List, [], ◌∷◌, String, if◌then◌else◌, ◌==◌, ◌⊎◌, inl, inr, ℤ, pos, negsuc, Bool, false,
  replicate, is_zero,
}
use bouheki.Buffer.{from_le_bytes, read_at}
use bouheki.Audit.Binary.{ReadError, int32, read}

abbrev pub new_uts_len : ℕ
new_uts_len = 64

abbrev pub task_comm_len : ℕ
task_comm_len = 16

abbrev pub padding_len : ℕ
padding_len = 7

-- SRCIP_V4_LEN and DSTIP_V4_LEN, SRCIP_V6_LEN and DSTIP_V6_LEN
abbrev pub ip_v4_len : ℕ
ip_v4_len = 4

abbrev pub ip_v6_len : ℕ
ip_v6_len = 16

-- type eventHeader, without its padding
pub record EventHeader : Type 0 where
  pub cgroup_id : ℕ
  pub pid : ℕ
  pub event_type : ℤ
  pub nodename : List ℕ
  pub command : List ℕ
  pub parent_command : List ℕ

-- the fields of type detectEventIPv4 and of type detectEventIPv6, which have the same names
pub record Body : Type 0 where
  pub src_ip : List ℕ
  pub dst_ip : List ℕ
  pub dst_port : ℕ
  pub lsm_hook_point : ℕ
  pub action : ℕ
  pub sock_type : ℕ

-- interface detectEvent
pub data DetectEvent : Type 0 where
  detect_event_ipv4 : Body → DetectEvent
  detect_event_ipv6 : Body → DetectEvent

abbrev pub event_header_size : ℕ
event_header_size = 8 + 4 + 4 + (new_uts_len + 1) + task_comm_len + task_comm_len + padding_len

-- binary.Size of a body with addresses of `ip_len` bytes
abbrev pub body_size : ℕ → ℕ
body_size ip_len = ip_len + ip_len + 2 + 1 + 1 + 1

unfoldable pub decode_header : List ℕ → EventHeader
decode_header bytes = record {
  cgroup_id = from_le_bytes (read_at 0 8 bytes);
  pid = from_le_bytes (read_at 8 4 bytes);
  event_type = int32 (from_le_bytes (read_at 12 4 bytes));
  nodename = read_at 16 (new_uts_len + 1) bytes;
  command = read_at (16 + (new_uts_len + 1)) task_comm_len bytes;
  parent_command = read_at (16 + (new_uts_len + 1) + task_comm_len) task_comm_len bytes;
}

unfoldable pub decode_body : ℕ → List ℕ → Body
decode_body ip_len bytes = record {
  src_ip = read_at 0 ip_len bytes;
  dst_ip = read_at ip_len ip_len bytes;
  dst_port = from_le_bytes (read_at (ip_len + ip_len) 2 bytes);
  lsm_hook_point = from_le_bytes (read_at (ip_len + ip_len + 2) 1 bytes);
  action = from_le_bytes (read_at (ip_len + ip_len + 3) 1 bytes);
  sock_type = from_le_bytes (read_at (ip_len + ip_len + 4) 1 bytes);
}

abbrev pub decoded_body :
    ℕ
    → (Body → DetectEvent)
    → EventHeader
    → ReadError ⊎ (List ℕ × List ℕ)
    → ReadError ⊎ (EventHeader × DetectEvent)
decoded_body ip_len detect_event header (inl err) = inl err
decoded_body ip_len detect_event header (inr (bytes, rest)) =
    inr (header, detect_event (decode_body ip_len bytes))

-- eventHeader{} and detectEventIPv4{}
abbrev pub empty_header : EventHeader
empty_header = record {
  cgroup_id = 0;
  pid = 0;
  event_type = pos 0;
  nodename = replicate (new_uts_len + 1) 0;
  command = replicate task_comm_len 0;
  parent_command = replicate task_comm_len 0;
}

abbrev pub empty_body : Body
empty_body = record {
  src_ip = replicate ip_v4_len 0;
  dst_ip = replicate ip_v4_len 0;
  dst_port = 0;
  lsm_hook_point = 0;
  action = 0;
  sock_type = 0;
}

abbrev pub equals : ℤ → ℕ → Bool
equals (pos m) n = m == n
equals (negsuc m) n = false

-- BLOCKED_IPV4, BLOCKED_IPV6
abbrev pub blocked_ipv4 : ℕ
blocked_ipv4 = 0

abbrev pub blocked_ipv6 : ℕ
blocked_ipv6 = 1

-- The body of an event of another type is not read, and there is no error: `err` is nil then.
abbrev pub with_header : EventHeader → List ℕ → ReadError ⊎ (EventHeader × DetectEvent)
with_header header buf =
    if equals header.event_type blocked_ipv4
    then decoded_body ip_v4_len detect_event_ipv4 header (read (body_size ip_v4_len) buf)
    else if equals header.event_type blocked_ipv6
    then decoded_body ip_v6_len detect_event_ipv6 header (read (body_size ip_v6_len) buf)
    else inr (empty_header, detect_event_ipv4 empty_body)

abbrev pub decoded : ReadError ⊎ (List ℕ × List ℕ) → ReadError ⊎ (EventHeader × DetectEvent)
decoded (inl err) = inl err
decoded (inr (bytes, rest)) = with_header (decode_header bytes) rest

unfoldable pub parse_event : List ℕ → ReadError ⊎ (EventHeader × DetectEvent)
parse_event event_bytes = decoded (read event_header_size event_bytes)
