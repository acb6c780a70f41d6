-- ===== src/CType.antt =====
-- The C types of pkg/bpf/c/vmlinux.h and of the events in pkg/bpf/c, as data, and their layout
-- in memory for the 64-bit little-endian target that the programs are compiled for: the size and
-- the alignment of a type, and the place of a member of a struct or union, by name. A cursor is a
-- number of bits from the start of the struct, since bit-fields do not end on a byte.
use bouheki.Prelude.{
  ℕ, ◌+◌, ◌-◌, ◌*◌, ◌/◌, ◌%◌, max, String, Option, none, some, List, [], ◌∷◌, if◌then◌else◌, leb,
  ◌==◌, ◌||◌,
}
use text.Mathlib.Text.{◌==◌ as str_eq}

infixr 60 ◌⨾◌
infix 65 ◌∶◌
mutual
  pub data CType : Type 0 where
    -- an integer, an enum, a `bool` or a pointer of that many bytes
    scalar : ℕ → CType
    array : CType → ℕ → CType
    struct : Members → CType
    union : Members → CType

  pub data Members : Type 0 where
    end : Members
    ◌⨾◌ : Member → Members → Members

  pub data Member : Type 0 where
    -- a member; the name of an anonymous struct or union is ""
    ◌∶◌ : String → CType → Member
    -- a bit-field: its name ("" for none), the bytes of its declared type, its width
    bits : String → ℕ → ℕ → Member

-- The next multiple of `a` from `x` on.
unfoldable pub round_up : ℕ → ℕ → ℕ
round_up x a = x + (a - x % a) % a

-- A bit-field of width `w` in units of `n` bytes starts at the cursor, unless it would cross the
-- end of a unit; width 0 only moves to the next unit.
unfoldable pub bit_start : ℕ → ℕ → ℕ → ℕ
unfolding round_up
bit_start cur n w =
    if w == 0 || leb (8 * n + 1) (cur % (8 * n) + w) then round_up cur (8 * n) else cur

-- An unnamed bit-field does not count in the alignment of its struct.
bit_align : String → ℕ → ℕ
bit_align name n = if str_eq name "" then 1 else n

unfoldable mutual
  unfolding round_up bit_start bit_align

  pub alignof : CType → ℕ
  alignof (scalar n) = n
  alignof (array t n) = alignof t
  alignof (struct ms) = align_members ms
  alignof (union ms) = align_members ms

  pub align_members : Members → ℕ
  align_members end = 1
  align_members ((name ∶ t) ⨾ ms) = max (alignof t) (align_members ms)
  align_members (bits name n w ⨾ ms) = max (bit_align name n) (align_members ms)

unfoldable mutual
  unfolding round_up bit_start alignof align_members

  pub sizeof : CType → ℕ
  sizeof (scalar n) = n
  sizeof (array t n) = n * sizeof t
  sizeof (struct ms) = round_up ((end_of ms 0 + 7) / 8) (align_members ms)
  sizeof (union ms) = round_up (largest ms) (align_members ms)

  -- the cursor behind the members, laid out from a cursor on
  pub end_of : Members → ℕ → ℕ
  end_of end cur = cur
  end_of ((name ∶ t) ⨾ ms) cur = end_of ms (round_up cur (8 * alignof t) + 8 * sizeof t)
  end_of (bits name n w ⨾ ms) cur = end_of ms (bit_start cur n w + w)

  -- the bytes of the largest member
  pub largest : Members → ℕ
  largest end = 0
  largest ((name ∶ t) ⨾ ms) = max (sizeof t) (largest ms)
  largest (bits name n w ⨾ ms) = max n (largest ms)

-- Where a member stands, in bits from the start, and its type.
pub record Place : Type 0 where
  pub bit : ℕ
  pub type : CType

unfoldable pub shift : ℕ → Option Place → Option Place
shift d none = none
shift d (some p) = some (record p { bit = d + p.bit })

unfoldable pub or_else : Option Place → Option Place → Option Place
or_else none q = q
or_else (some p) q = some p

-- The member at its own place, or one inside it if it is anonymous; otherwise one further on.
unfoldable pub pick : String → String → ℕ → CType → Option Place → Option Place → Option Place
unfolding shift or_else
pick name wanted here t inside further =
    if str_eq name wanted
    then some (record { bit = here; type = t })
    else or_else (if str_eq name "" then shift here inside else none) further

unfoldable mutual
  unfolding sizeof pick

  -- the member of that name, those of anonymous members included; a bit-field has no address
  pub member : CType → String → Option Place
  member (scalar n) x = none
  member (array t n) x = none
  member (struct ms) x = member_from ms 0 x
  member (union ms) x = member_any ms x

  pub member_from : Members → ℕ → String → Option Place
  member_from end cur x = none
  member_from ((name ∶ t) ⨾ ms) cur x =
      pick name x (round_up cur (8 * alignof t)) t (member t x)
        (member_from ms (round_up cur (8 * alignof t) + 8 * sizeof t) x)
  member_from (bits name n w ⨾ ms) cur x = member_from ms (bit_start cur n w + w) x

  -- all members of a union start at 0
  pub member_any : Members → String → Option Place
  member_any end x = none
  member_any ((name ∶ t) ⨾ ms) x = pick name x 0 t (member t x) (member_any ms x)
  member_any (bits name n w ⨾ ms) x = member_any ms x

-- `t.a.b.c`, as in the argument of `offsetof` and of `BPF_CORE_READ`
unfoldable pub member_at : CType → List String → Option Place
unfolding shift member
member_at t [] = some (record { bit = 0; type = t })
member_at t (x ∷ xs) = elim (member t x) [
  | none ↦ none
  | some p ↦ shift p.bit (member_at p.type xs)
]
