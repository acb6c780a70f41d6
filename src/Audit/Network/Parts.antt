-- ===== src/Audit/Network/Parts.antt =====
-- The two parts of an event of the network program, as pkg/audit/network/audit.go takes it apart.
use bouheki.Prelude.{
  ℕ, ◌+◌, ◌*◌, ◌%◌, ◌≤◌, ◌<◌, ◌≡◌, refl, ◌∙◌, List, arith, ℤ, inr, length, take, drop, get_or,
}
use bouheki.Buffer.{from_le_bytes, le_bytes, read_at}
use bouheki.Kernel.{Kernel}
use bouheki.Common.{task_comm_len}
use bouheki.Common.Container.{current_pid, nodename, parent_comm}
use bouheki.Network.Ports.{swapped}
use bouheki.Audit.Binary.{length-drop, read, read_enough, read_at-drop, read_at-take}
use bouheki.Audit.Network.{EventHeader, decode_header, parse_event, with_header}

-- The header that an event stands for.
abbrev pub sent_header : Kernel → ℕ → ℤ → EventHeader
sent_header k cg type = record {
  cgroup_id = cg;
  pid = current_pid k;
  event_type = type;
  nodename = nodename k;
  command = k.current_comm task_comm_len;
  parent_command = parent_comm k;
}

-- A port in network byte order.
abbrev pub big_endian : List ℕ → ℕ
big_endian bs = 256 * get_or bs 0 0 + get_or bs 1 0

pub read_at-field :
    (off n m d : ℕ) (xs : List ℕ)
    → off + n ≤ m
    → read_at off n (take m (drop d xs)) ≡ read_at (d + off) n xs
read_at-field off n m d xs h = read_at-take off n m (drop d xs) h ∙ read_at-drop off n d xs

decode_header-take : (event : List ℕ) → decode_header (take 120 event) ≡ decode_header event
unfolding decode_header
decode_header-take event =
    rw
      (
        read_at-take 0 8 120 event (omega arith),
        read_at-take 8 4 120 event (omega arith),
        read_at-take 12 4 120 event (omega arith),
        read_at-take 16 65 120 event (omega arith),
        read_at-take 81 16 120 event (omega arith),
        read_at-take 97 16 120 event (omega arith),
      )
      refl

-- Both parts of an event are there.
pub parse_event-parts :
    (event : List ℕ) (header : EventHeader)
    → 120 ≤ length event
    → decode_header event ≡ header
    → parse_event event ≡ with_header header (drop 120 event)
unfolding parse_event
parse_event-parts event header enough e =
    rw (read_enough 120 event (omega arith) enough, decode_header-take event, e) refl

pub read-body :
    (event : List ℕ) (n : ℕ)
    → 0 < n
    → 120 + n ≤ length event
    → read n (drop 120 event) ≡ inr (take n (drop 120 event), drop n (drop 120 event))
read-body event n some_byte enough =
    read_enough n (drop 120 event) some_byte
      (let e = length-drop 120 event (omega arith) in omega arith)

pub from_le_bytes-swapped : (bs : List ℕ) → from_le_bytes (swapped bs) ≡ big_endian bs
unfolding from_le_bytes
from_le_bytes-swapped bs = omega arith

pub from_le_bytes-byte : (x : ℕ) → from_le_bytes (le_bytes 1 x) ≡ x % 256
unfolding from_le_bytes le_bytes
from_le_bytes-byte x = omega arith
