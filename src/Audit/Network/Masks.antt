-- ===== src/Audit/Network/Masks.antt =====
-- IPMask.Size, of Go's package net, undoes CIDRMask.
use bouheki.Prelude.{
  ℕ, zero, suc, ◌+◌, ◌-◌, ◌*◌, ◌≤◌, ◌<◌, ◌≡◌, refl, ap, ap₂, Bool, true, false, ◌&&◌, not, some,
  ◌==◌, leb, arith, all_below, all_below_lem, &&_parts, ==_iff, Bool-cases, inl, inr,
}
use bouheki.Audit.Network.Ip.{all_zero, cidr_mask, leading_ones, mask_size, simple_mask_length}
use bouheki.Audit.Network.Trie.{mask_byte}

not-true : (b : Bool) → not b ≡ true → b ≡ false
not-true true h = cc
not-true false h = refl

-- The last byte with ones, of which there are fewer than eight.
abbrev counted : ℕ → Bool
counted n =
    not (mask_byte n == 0xff)
    && ((leading_ones 8 (mask_byte n)).0 == n && (leading_ones 8 (mask_byte n)).1 == 0)

counted_table : all_below 8 counted ≡ true
unfolding all_below leading_ones
counted_table = refl

mask_byte-counted :
    (n : ℕ) → n < 8 → ((mask_byte n == 0xff) ≡ false) × (leading_ones 8 (mask_byte n) ≡ (n, 0))
mask_byte-counted n h =
    let (not_ff, rest) =
      &&_parts (not (mask_byte n == 0xff))
        ((leading_ones 8 (mask_byte n)).0 == n && (leading_ones 8 (mask_byte n)).1 == 0)
        (all_below_lem 8 counted n counted_table h) in
    let (count, shifted) =
      &&_parts ((leading_ones 8 (mask_byte n)).0 == n) ((leading_ones 8 (mask_byte n)).1 == 0)
        rest in
    (not-true _ not_ff, ap₂ (λ a b. (a, b)) ((==_iff _ _).0 count) ((==_iff _ _).0 shifted))

all_zero-cidr_mask : (len : ℕ) → all_zero (cidr_mask 0 len) ≡ true
unfolding cidr_mask
all_zero-cidr_mask zero = refl
all_zero-cidr_mask (suc len) = all_zero-cidr_mask len

simple_mask_length-cidr_mask :
    (n ones len : ℕ) → ones ≤ 8 * len → simple_mask_length n (cidr_mask ones len) ≡ some (n + ones)
unfolding simple_mask_length cidr_mask
simple_mask_length-cidr_mask n ones zero h = ap some (omega arith)
simple_mask_length-cidr_mask n ones (suc len) h = elim (Bool-cases (leb 8 ones)) [
  | inl whole ↦
      let many : 8 ≤ ones = ground arith in
      rw (whole, simple_mask_length-cidr_mask (n + 8) (ones - 8) len (omega arith))
        (ap some (omega arith))
  | inr part ↦
      let few : ones < 8 = ground arith in
      let (not_ff, count) = mask_byte-counted ones few in
      let none_left : ones - 8 ≡ 0 = omega arith in
      rw (part, not_ff, count, none_left, all_zero-cidr_mask len)
]

-- The prefix length of a network is read off its mask.
pub mask_size-cidr_mask : (ones len : ℕ) → ones ≤ 8 * len → mask_size (cidr_mask ones len) ≡ ones
unfolding mask_size
mask_size-cidr_mask ones len h = rw (simple_mask_length-cidr_mask 0 ones len h) (omega arith)
