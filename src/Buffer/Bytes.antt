-- ===== src/Buffer/Bytes.antt =====
-- Laws of the accesses to a buffer by offset, and of the little-endian encoding.
use bouheki.Prelude.{
  ℕ, zero, suc, ◌+◌, ◌/◌, ◌^◌, ◌≤◌, ◌<◌, ◌≡◌, refl, ap, List, [], ◌∷◌, ◌++◌, arith, length, get_or,
  take, drop,
}
use native.Mathlib.Nat.{pow-suc, suc-add, zero-add}
use bouheki.Buffer.{le_bytes, from_le_bytes, read_at, overlay, write_at}

pub length-le_bytes : (n x : ℕ) → length (le_bytes n x) ≡ n
unfolding le_bytes
length-le_bytes zero x = refl
length-le_bytes (suc n) x = ap suc (length-le_bytes n (x / 256))

pub byte-le_bytes : (n x i : ℕ) → get_or (le_bytes n x) i 0 < 256
unfolding le_bytes
byte-le_bytes zero x i = omega arith
byte-le_bytes (suc n) x zero = omega arith
byte-le_bytes (suc n) x (suc i) = byte-le_bytes n (x / 256) i

-- An integer that fits in `n` bytes is read back as it was written.
pub from_le_bytes-le_bytes : (n x : ℕ) → x < 256 ^ n → from_le_bytes (le_bytes n x) ≡ x
unfolding from_le_bytes le_bytes
from_le_bytes-le_bytes zero x h = omega arith
from_le_bytes-le_bytes (suc n) x h =
    omega (arith, pow-suc 256 n, from_le_bytes-le_bytes n (x / 256) (omega (arith, pow-suc 256 n)))

pub length-overlay : (bs buf : List ℕ) → length (overlay bs buf) ≡ length buf
length-overlay [] buf = refl
length-overlay (b ∷ bs) [] = refl
length-overlay (b ∷ bs) (x ∷ buf) = ap suc (length-overlay bs buf)

pub length-write_at : (off : ℕ) (bs buf : List ℕ) → length (write_at off bs buf) ≡ length buf
length-write_at zero bs buf = length-overlay bs buf
length-write_at (suc off) bs [] = refl
length-write_at (suc off) bs (x ∷ buf) = ap suc (length-write_at off bs buf)

take-overlay : (bs buf : List ℕ) → length bs ≤ length buf → take (length bs) (overlay bs buf) ≡ bs
take-overlay [] buf h = refl
take-overlay (b ∷ bs) [] h = absurd (omega arith)
take-overlay (b ∷ bs) (x ∷ buf) h = ap (◌∷◌ b) (take-overlay bs buf (omega arith))

-- What was written is read back.
pub read_at-write_at :
    (off : ℕ) (bs buf : List ℕ)
    → off + length bs ≤ length buf
    → read_at off (length bs) (write_at off bs buf) ≡ bs
read_at-write_at zero bs buf h = take-overlay bs buf (omega arith)
read_at-write_at (suc off) bs [] h = absurd (omega arith)
read_at-write_at (suc off) bs (x ∷ buf) h = read_at-write_at off bs buf (omega arith)

-- A read in front of a write does not see it.
pub read_at-write_at_before :
    (off n w : ℕ) (bs buf : List ℕ)
    → off + n ≤ w
    → read_at off n (write_at w bs buf) ≡ read_at off n buf
read_at-write_at_before zero zero w bs buf h = refl
read_at-write_at_before zero (suc n) zero bs buf h = absurd (omega arith)
read_at-write_at_before zero (suc n) (suc w) bs [] h = refl
read_at-write_at_before zero (suc n) (suc w) bs (x ∷ buf) h =
    ap (◌∷◌ x) (read_at-write_at_before zero n w bs buf (omega arith))
read_at-write_at_before (suc off) n zero bs buf h = absurd (omega arith)
read_at-write_at_before (suc off) n (suc w) bs [] h = refl
read_at-write_at_before (suc off) n (suc w) bs (x ∷ buf) h =
    read_at-write_at_before off n w bs buf (omega arith)

drop-overlay :
    (off : ℕ) (bs buf : List ℕ) → length bs ≤ off → drop off (overlay bs buf) ≡ drop off buf
drop-overlay off [] buf h = refl
drop-overlay zero (b ∷ bs) buf h = absurd (omega arith)
drop-overlay (suc off) (b ∷ bs) [] h = refl
drop-overlay (suc off) (b ∷ bs) (x ∷ buf) h = drop-overlay off bs buf (omega arith)

drop-write_at :
    (off w : ℕ) (bs buf : List ℕ)
    → w + length bs ≤ off
    → drop off (write_at w bs buf) ≡ drop off buf
drop-write_at off zero bs buf h = drop-overlay off bs buf (omega arith)
drop-write_at zero (suc w) bs buf h = absurd (omega arith)
drop-write_at (suc off) (suc w) bs [] h = refl
drop-write_at (suc off) (suc w) bs (x ∷ buf) h = drop-write_at off w bs buf (omega arith)

-- A read behind a write does not see it.
pub read_at-write_at_after :
    (off n w : ℕ) (bs buf : List ℕ)
    → w + length bs ≤ off
    → read_at off n (write_at w bs buf) ≡ read_at off n buf
read_at-write_at_after off n w bs buf h = ap (take n) (drop-write_at off w bs buf h)

-- Two writes one behind the other, from the start on.
read_at-write_at_append :
    (xs ys buf : List ℕ)
    → length xs + length ys ≤ length buf
    → read_at 0 (length xs + length ys) (write_at (length xs) ys (write_at 0 xs buf)) ≡ xs ++ ys
read_at-write_at_append [] ys buf h = rw zero-add (take-overlay ys buf (omega arith))
read_at-write_at_append (x ∷ xs) ys [] h = absurd (omega arith)
read_at-write_at_append (x ∷ xs) ys (z ∷ buf) h =
    rw suc-add (ap (◌∷◌ x) (read_at-write_at_append xs ys buf (omega arith)))

pub read_at-write_two :
    (n m : ℕ) (xs ys buf : List ℕ)
    → length xs ≡ n
    → length ys ≡ m
    → n + m ≤ length buf
    → read_at 0 (n + m) (write_at n ys (write_at 0 xs buf)) ≡ xs ++ ys
read_at-write_two n m xs ys buf e f h =
    rw (← e, ← f) (read_at-write_at_append xs ys buf (omega arith))
