-- ===== src/Buffer.antt =====
-- Objects in memory as lists of bytes: the events that the programs of pkg/bpf/c fill in and send.
-- A member of a struct is read and written at the place that CType.antt computes for it.
pub mod Bytes
pub mod Members
use bouheki.Prelude.{
  ℕ, zero, suc, ◌+◌, ◌-◌, ◌*◌, ◌/◌, ◌%◌, ◌^◌, List, [], ◌∷◌, Option, none, some, String, ℤ, pos,
  negsuc, take, drop, replicate,
}
use bouheki.CType.{CType, Place, member_at, sizeof}

-- The little-endian bytes of an integer of `n` bytes, which keeps the value modulo 256 ^ n.
unfoldable pub le_bytes : ℕ → ℕ → List ℕ
le_bytes zero x = []
le_bytes (suc n) x = (x % 256) ∷ le_bytes n (x / 256)

-- The unsigned integer of little-endian bytes.
unfoldable pub from_le_bytes : List ℕ → ℕ
from_le_bytes [] = 0
from_le_bytes (b ∷ bs) = b + 256 * from_le_bytes bs

-- The two's complement pattern of an `int`.
abbrev pub int_pattern : ℤ → ℕ
int_pattern (pos n) = n % 2 ^ 32
int_pattern (negsuc n) = 2 ^ 32 - 1 - n % 2 ^ 32

-- `n` bytes from an offset on.
abbrev pub read_at : ℕ → ℕ → List ℕ → List ℕ
read_at off n buf = take n (drop off buf)

-- Bytes written from the start of a buffer; what does not fit is dropped.
abbrev pub overlay : List ℕ → List ℕ → List ℕ
overlay [] buf = buf
overlay (b ∷ bs) [] = []
overlay (b ∷ bs) (x ∷ buf) = b ∷ overlay bs buf

-- Bytes written from an offset on.
abbrev pub write_at : ℕ → List ℕ → List ℕ → List ℕ
write_at zero bs buf = overlay bs buf
write_at (suc off) bs [] = []
write_at (suc off) bs (x ∷ buf) = x ∷ write_at off bs buf

unfoldable pub byte_offset : Option Place → ℕ
byte_offset none = 0
byte_offset (some p) = p.bit / 8

unfoldable pub byte_size : Option Place → ℕ
unfolding sizeof
byte_size none = 0
byte_size (some p) = sizeof p.type

-- `offsetof(t, path)`, and the size of that member; 0 if there is no such member.
unfoldable pub offset_of : CType → List String → ℕ
unfolding member_at byte_offset
offset_of t path = byte_offset (member_at t path)

unfoldable pub size_of : CType → List String → ℕ
unfolding member_at byte_size
size_of t path = byte_size (member_at t path)

abbrev pub get_member : CType → List String → List ℕ → List ℕ
get_member t path obj = read_at (offset_of t path) (size_of t path) obj

abbrev pub set_member : CType → List String → List ℕ → List ℕ → List ℕ
set_member t path bs obj = write_at (offset_of t path) bs obj

-- An object of type `t` with all bytes zero: `= {}`, and `__builtin_memset(&x, 0, sizeof(x))`.
abbrev pub zeroed : CType → List ℕ
zeroed t = replicate (sizeof t) 0

-- One assignment to a member: the path of the member and the bytes.
abbrev pub Assignment : Type 0
Assignment = List String × List ℕ

-- A sequence of assignments to the members of one object.
abbrev pub assign : CType → List Assignment → List ℕ → List ℕ
assign t [] obj = obj
assign t ((path, bs) ∷ rest) obj = assign t rest (set_member t path bs obj)
