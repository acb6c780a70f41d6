-- ===== src/Audit/Binary.antt =====
-- What pkg/audit uses of Go's encoding/binary: `binary.Read(buf, binary.LittleEndian, &data)` for a
-- struct of fixed size, from a bytes.Buffer. The fields are read one behind the other, without
-- padding; an `int32` is in two's complement.
use bouheki.Prelude.{
  ℕ, zero, suc, ◌+◌, ◌-◌, ◌^◌, ◌≤◌, ◌<◌, ◌≡◌, refl, ap, List, [], ◌∷◌, ◌⊎◌, inl, inr, arith,
  if◌then◌else◌, ltb, length, take, drop, ℤ, pos, neg, negsuc, Bool, true, false,
}
use native.Mathlib.Nat.{suc-add, zero-add}
use bouheki.Buffer.{read_at, from_le_bytes, int_pattern, le_bytes}
use bouheki.Buffer.Bytes.{from_le_bytes-le_bytes}

-- io.EOF without a byte, io.ErrUnexpectedEOF with too few
pub data ReadError : Type 0 where
  eof : ReadError
  unexpected_eof : ReadError

-- The bytes of a struct of `size` bytes, and the rest of the buffer.
abbrev pub read : ℕ → List ℕ → ReadError ⊎ (List ℕ × List ℕ)
read size [] = inl eof
read size (b ∷ bs) =
    if ltb (length (b ∷ bs)) size
    then inl unexpected_eof
    else inr (take size (b ∷ bs), drop size (b ∷ bs))

pub read_enough :
    (size : ℕ) (buf : List ℕ)
    → 0 < size
    → size ≤ length buf
    → read size buf ≡ inr (take size buf, drop size buf)
read_enough size [] some_byte enough = absurd (omega arith)
read_enough size (b ∷ bs) some_byte enough = ground arith

pub take_all : (xs : List ℕ) (n : ℕ) → length xs ≡ n → take n xs ≡ xs
take_all [] zero h = refl
take_all [] (suc n) h = refl
take_all (x ∷ xs) zero h = absurd (omega arith)
take_all (x ∷ xs) (suc n) h = ap (◌∷◌ x) (take_all xs n (omega arith))

unfoldable pub int32 : ℕ → ℤ
int32 x = if ltb x (2 ^ 31) then pos x else negsuc (2 ^ 32 - 1 - x)

-- The values of an `int32`.
abbrev pub InRange : ℤ → Type 0
InRange (pos n) = n < 2 ^ 31
InRange (negsuc n) = n < 2 ^ 31

pub int32-int_pattern : (r : ℤ) → InRange r → int32 (from_le_bytes (le_bytes 4 (int_pattern r))) ≡ r
unfolding int32
int32-int_pattern (pos n) h =
    rw (from_le_bytes-le_bytes 4 (int_pattern (pos n)) (omega arith)) (ground arith)
int32-int_pattern (negsuc n) h =
    rw (from_le_bytes-le_bytes 4 (int_pattern (negsuc n)) (omega arith)) (ground arith)

pub InRange-if : (b : Bool) (x y : ℤ) → InRange x → InRange y → InRange (if b then x else y)
InRange-if true x y hx hy = hx
InRange-if false x y hx hy = hy

pub InRange-unless : (b : Bool) (y : ℤ) → InRange y → InRange (if b then pos 0 else y)
InRange-unless b y h = InRange-if b (pos 0) y (omega arith) h

pub InRange-neg : (n : ℕ) → n < 4096 → InRange (neg n)
InRange-neg zero h = omega arith
InRange-neg (suc n) h = omega arith

take-take : (n m : ℕ) (xs : List ℕ) → n ≤ m → take n (take m xs) ≡ take n xs
take-take zero m xs h = refl
take-take (suc n) zero xs h = absurd (omega arith)
take-take (suc n) (suc m) [] h = refl
take-take (suc n) (suc m) (x ∷ xs) h = ap (◌∷◌ x) (take-take n m xs (omega arith))

-- A field inside the first `m` bytes.
pub read_at-take :
    (off n m : ℕ) (xs : List ℕ) → off + n ≤ m → read_at off n (take m xs) ≡ read_at off n xs
read_at-take zero n m xs h = take-take n m xs (omega arith)
read_at-take (suc off) n zero xs h = absurd (omega arith)
read_at-take (suc off) n (suc m) [] h = refl
read_at-take (suc off) n (suc m) (x ∷ xs) h = read_at-take off n m xs (omega arith)

drop-drop : (off d : ℕ) (xs : List ℕ) → drop off (drop d xs) ≡ drop (d + off) xs
drop-drop off zero xs = rw zero-add refl
drop-drop zero (suc d) [] = rw suc-add refl
drop-drop (suc off) (suc d) [] = rw suc-add refl
drop-drop off (suc d) (x ∷ xs) = rw suc-add (drop-drop off d xs)

-- A field of what stands behind the first `d` bytes.
pub read_at-drop : (off n d : ℕ) (xs : List ℕ) → read_at off n (drop d xs) ≡ read_at (d + off) n xs
read_at-drop off n d xs = ap (take n) (drop-drop off d xs)

pub length-drop : (n : ℕ) (xs : List ℕ) → n ≤ length xs → n + length (drop n xs) ≡ length xs
length-drop zero xs h = omega arith
length-drop (suc n) [] h = absurd (omega arith)
length-drop (suc n) (x ∷ xs) h = let e = length-drop n xs (omega arith) in omega arith
