-- ===== src/Layout/Bounds.antt =====
-- Members lie inside the struct or union that they are named in, for every C type: a read of a
-- member, by the offsets that CType.antt computes, stays inside the object.
use native.Mathlib.Nat.{le_refl, le_trans, le-add_right}
use bouheki.Prelude.{
  ℕ, ◌+◌, ◌*◌, ◌/◌, ◌≤◌, String, Option, none, some, List, [], ◌∷◌, arith, Bool-cases, inl, inr,
}
use text.Mathlib.Text.{◌==◌ as str_eq}
use bouheki.Buffer.{byte_offset, byte_size, offset_of, size_of}
use bouheki.CType.{
  CType, scalar, array, struct, union, Members, end, ◌⨾◌, ◌∶◌, bits, Place, alignof, align_members,
  bit_start, end_of, largest, member, member_any, member_at, member_from, or_else, pick, round_up,
  shift, sizeof,
}

-- The place, if there is one, ends at bit `n` at the latest.
abbrev Within : ℕ → Option Place → Type 0
Within n none = Unit
Within n (some p) = p.bit + 8 * sizeof p.type ≤ n

le-round_up : (x a : ℕ) → x ≤ round_up x a
unfolding round_up
le-round_up x a = omega arith

le-bit_start : (cur n w : ℕ) → cur ≤ bit_start cur n w
unfolding bit_start
le-bit_start cur n w = ground (arith, le-round_up cur (8 * n))

le-end_of : (ms : Members) (cur : ℕ) → cur ≤ end_of ms cur
unfolding end_of
le-end_of end cur = le_refl cur
le-end_of ((name ∶ t) ⨾ ms) cur = le_trans (le-round_up cur (8 * alignof t)) (
    le_trans (le-add_right (round_up cur (8 * alignof t)) (8 * sizeof t))
      (le-end_of ms (round_up cur (8 * alignof t) + 8 * sizeof t)))
le-end_of (bits name n w ⨾ ms) cur =
    le_trans (le-bit_start cur n w)
      (le_trans (le-add_right (bit_start cur n w) w) (le-end_of ms (bit_start cur n w + w)))

Within-shift : (d n : ℕ) (p : Option Place) → Within n p → Within (d + n) (shift d p)
unfolding shift
Within-shift d n none h = tt
Within-shift d n (some p) h = omega arith

Within-mono : (n m : ℕ) (p : Option Place) → n ≤ m → Within n p → Within m p
Within-mono n m none le h = tt
Within-mono n m (some p) le h = le_trans h le

Within-or_else : (n : ℕ) (p q : Option Place) → Within n p → Within n q → Within n (or_else p q)
unfolding or_else
Within-or_else n none q hp hq = hq
Within-or_else n (some p) q hp hq = hp

pick-Within :
    (name x : String) (here : ℕ) (t : CType) (inside further : Option Place) (n : ℕ)
    → here + 8 * sizeof t ≤ n
    → Within (8 * sizeof t) inside
    → Within n further
    → Within n (pick name x here t inside further)
unfolding pick
pick-Within name x here t inside further n fits hi hf = elim (Bool-cases (str_eq name x)) [
  | inl found ↦ rw found fits
  | inr other ↦ rw other (
      Within-or_else n _ further
        (elim (Bool-cases (str_eq name "")) [
          | inl anonymous ↦ rw anonymous (Within-mono _ n _ fits (Within-shift here _ inside hi))
          | inr named ↦ rw named tt
        ])
        hf)
]

-- The bytes of a struct cover the bits of its members.
struct_covers : (ms : Members) → end_of ms 0 ≤ 8 * sizeof (struct ms)
struct_covers ms =
    unfold sizeof in omega (arith, le-round_up ((end_of ms 0 + 7) / 8) (align_members ms))

union_covers : (ms : Members) → 8 * largest ms ≤ 8 * sizeof (union ms)
union_covers ms = unfold sizeof in omega (arith, le-round_up (largest ms) (align_members ms))

mutual
  unfolding member

  member-Within : (t : CType) (x : String) → Within (8 * sizeof t) (member t x)
  member-Within (scalar n) x = tt
  member-Within (array t n) x = tt
  member-Within (struct ms) x =
      Within-mono _ _ (member_from ms 0 x) (struct_covers ms) (member_from-Within ms 0 x)
  member-Within (union ms) x =
      Within-mono _ _ (member_any ms x) (union_covers ms) (member_any-Within ms x)

  member_from-Within :
      (ms : Members) (cur : ℕ) (x : String) → Within (end_of ms cur) (member_from ms cur x)
  member_from-Within end cur x = tt
  member_from-Within ((name ∶ t) ⨾ ms) cur x =
      pick-Within name x (round_up cur (8 * alignof t)) t (member t x) _ _
        (le-end_of ms (round_up cur (8 * alignof t) + 8 * sizeof t)) (member-Within t x)
        (member_from-Within ms (round_up cur (8 * alignof t) + 8 * sizeof t) x)
  member_from-Within (bits name n w ⨾ ms) cur x = member_from-Within ms (bit_start cur n w + w) x

  member_any-Within : (ms : Members) (x : String) → Within (8 * largest ms) (member_any ms x)
  member_any-Within end x = tt
  member_any-Within ((name ∶ t) ⨾ ms) x =
      pick-Within name x 0 t (member t x) (member_any ms x) _ (omega arith) (member-Within t x)
        (Within-mono _ _ (member_any ms x) (omega arith) (member_any-Within ms x))
  member_any-Within (bits name n w ⨾ ms) x =
      Within-mono _ _ (member_any ms x) (omega arith) (member_any-Within ms x)

-- A member of the member `o`.
Within-inner :
    (n : ℕ) (o : Option Place) (xs : List String)
    → Within n o
    → ((t : CType) → Within (8 * sizeof t) (member_at t xs))
    → Within n (elim o [ none ↦ none | some p ↦ shift p.bit (member_at p.type xs) ])
Within-inner n none xs h inner = tt
Within-inner n (some p) xs h inner =
    Within-mono _ n (shift p.bit (member_at p.type xs)) h
      (Within-shift p.bit _ (member_at p.type xs) (inner p.type))

member_at-Within : (t : CType) (path : List String) → Within (8 * sizeof t) (member_at t path)
unfolding member_at
member_at-Within t [] = omega arith
member_at-Within t (x ∷ xs) =
    Within-inner _ (member t x) xs (member-Within t x) (λ u. member_at-Within u xs)

bytes-Within : (n : ℕ) (o : Option Place) → Within (8 * n) o → byte_offset o + byte_size o ≤ n
unfolding byte_offset byte_size
bytes-Within n none h = omega arith
bytes-Within n (some p) h = omega arith

-- For every C type and every path of member names, the bytes of the member that the path names
-- lie inside the object.
pub member_in_bounds :
    (t : CType) (path : List String) → offset_of t path + size_of t path ≤ sizeof t
unfolding offset_of size_of
member_in_bounds t path = bytes-Within (sizeof t) (member_at t path) (member_at-Within t path)
