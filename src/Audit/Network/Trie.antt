-- ===== src/Audit/Network/Trie.antt =====
-- The tries of the network program, which the kernel implements: a lookup with a key of all bits
-- finds an entry whose prefix is that of the key. And when the prefixes of an entry with a masked
-- address agree with those of an address.
use Prim.Native.Nat.{bit_and}
use native.Mathlib.Nat.{mul-div_cancel, one-le-pow}
use bouheki.Prelude.{
  ℕ, ◌-◌, ◌*◌, ◌/◌, ◌^◌, ◌<◌, all_below, all_below_lem, ◌≡◌, refl, sym, ap, ◌∙◌, List, [], ◌∷◌,
  Bool, true, false, ◌&&◌, ◌||◌, if◌then◌else◌, ◌==◌, leb, length, take, drop, arith, ==_iff,
  Bool-cases, inl, inr,
}
use bouheki.Buffer.{from_le_bytes}
use bouheki.Audit.Network.Ip.{AreBytes, and_bytes, bytes_eq, cidr_mask}

-- The first `n` bits of two lists of bytes are the same, the highest bit of a byte first.
abbrev pub prefix_eq : ℕ → List ℕ → List ℕ → Bool
prefix_eq n [] ys = true
prefix_eq n (x ∷ xs) [] = true
prefix_eq n (x ∷ xs) (y ∷ ys) =
    if leb 8 n then x == y && prefix_eq (n - 8) xs ys else x / 2 ^ (8 - n) == y / 2 ^ (8 - n)

-- The prefix length of a key, its first four bytes.
abbrev pub prefixlen : List ℕ → ℕ
prefixlen key = from_le_bytes (take 4 key)

-- An entry is a prefix of the key.
abbrev pub matches : List ℕ → List ℕ → Bool
matches key entry =
    leb (prefixlen entry) (prefixlen key) && prefix_eq (prefixlen entry) (drop 4 entry) (drop 4 key)

abbrev pub any {ℓ} : {A : Type ℓ} → (A → Bool) → List A → Bool
any p [] = false
any p (x ∷ xs) = p x || any p xs

-- bpf_map_lookup_elem on a map of type BPF_MAP_TYPE_LPM_TRIE: whether it finds an entry, given the
-- entries and a key.
pub record Trie : Type 0 where
  pub lookup : List (List ℕ) → List ℕ → Bool

-- As documented: it returns the entry with the longest prefix that matches, if there is one.
pub record IsTrie (t : Trie) : Type 0 where
  pub finds :
      (entries : List (List ℕ)) (key : List ℕ) → t.lookup entries key ≡ any (matches key) entries

-- A byte of a mask with `n` leading ones keeps the `n` highest bits.
abbrev pub mask_byte : ℕ → ℕ
mask_byte n = 0xff - 0xff / 2 ^ n

mask_table :
    all_below 8 (λ n. all_below 256 (λ x. bit_and x (mask_byte n) == x / 2 ^ (8 - n) * 2 ^ (8 - n)))
    ≡ true
unfolding all_below
mask_table = refl

bit_and-mask_byte :
    (n x : ℕ) → n < 8 → x < 256 → bit_and x (mask_byte n) ≡ x / 2 ^ (8 - n) * 2 ^ (8 - n)
bit_and-mask_byte n x hn hx = (==_iff _ _).0 (
    all_below_lem 256 (λ x. bit_and x (mask_byte n) == x / 2 ^ (8 - n) * 2 ^ (8 - n)) x
      (all_below_lem 8
        (λ n. all_below 256 (λ x. bit_and x (mask_byte n) == x / 2 ^ (8 - n) * 2 ^ (8 - n))) n
        mask_table hn)
      hx)

ff_table : all_below 256 (λ x. bit_and x 0xff == x) ≡ true
unfolding all_below
ff_table = refl

pub bit_and-ff : (x : ℕ) → x < 256 → bit_and x 0xff ≡ x
bit_and-ff x h = (==_iff _ _).0 (all_below_lem 256 (λ x. bit_and x 0xff == x) x ff_table h)

same_quotient : (p q r : ℕ) → 0 < p → (q * p / p == r) ≡ (q * p == r * p)
same_quotient p q r h = rw (mul-div_cancel q h) (elim (Bool-cases (q * p == r * p)) [
  | inl same ↦
      let e =
        sym (mul-div_cancel q h) ∙ (ap (λ t. t / p) ((==_iff _ _).0 same) ∙ mul-div_cancel r h) in
      (==_iff q r).1 e ∙ sym same
  | inr differ ↦ elim (Bool-cases (q == r)) [
    | inl e ↦ cc ((==_iff (q * p) (r * p)).1 (ap (λ t. t * p) ((==_iff q r).0 e)))
    | inr ne ↦ ne ∙ sym differ
  ]
])

-- The highest bits agree exactly if the masked bytes do.
masked_byte :
    (n x y : ℕ)
    → n < 8
    → x < 256
    → y < 256
    → (bit_and x (mask_byte n) / 2 ^ (8 - n) == y / 2 ^ (8 - n))
      ≡ (bit_and x (mask_byte n) == bit_and y (mask_byte n))
masked_byte n x y hn hx hy =
    rw (bit_and-mask_byte n x hn hx, bit_and-mask_byte n y hn hy)
      (same_quotient (2 ^ (8 - n)) (x / 2 ^ (8 - n)) (y / 2 ^ (8 - n))
        (omega (arith, one-le-pow (8 - n) 2 (omega arith))))

bit_and-zero : (x : ℕ) → x < 256 → bit_and x 0 ≡ 0
bit_and-zero x h = bit_and-mask_byte 0 x (omega arith) h ∙ omega arith

and_true : (a : Bool) → a && true ≡ a
and_true true = refl
and_true false = refl

-- Behind the prefix a mask is 0.
masked_rest :
    (xs ys : List ℕ)
    → length xs ≡ length ys
    → AreBytes xs
    → AreBytes ys
    → bytes_eq (and_bytes xs (cidr_mask 0 (length xs))) (and_bytes ys (cidr_mask 0 (length xs)))
      ≡ true
unfolding cidr_mask
masked_rest [] [] h hx hy = refl
masked_rest [] (y ∷ ys) h hx hy = absurd (omega arith)
masked_rest (x ∷ xs) [] h hx hy = absurd (omega arith)
masked_rest (x ∷ xs) (y ∷ ys) h hx hy =
    rw (bit_and-zero x hx.0, bit_and-zero y hy.0) (masked_rest xs ys (omega arith) hx.1 hy.1)

-- A masked address has the prefix of another exactly if the other one, masked, is the same.
pub prefix_eq-and_bytes :
    (n : ℕ) (xs ys : List ℕ)
    → length xs ≡ length ys
    → AreBytes xs
    → AreBytes ys
    → prefix_eq n (and_bytes xs (cidr_mask n (length xs))) ys
      ≡ bytes_eq (and_bytes xs (cidr_mask n (length xs))) (and_bytes ys (cidr_mask n (length xs)))
unfolding cidr_mask
prefix_eq-and_bytes n [] [] h hx hy = refl
prefix_eq-and_bytes n [] (y ∷ ys) h hx hy = absurd (omega arith)
prefix_eq-and_bytes n (x ∷ xs) [] h hx hy = absurd (omega arith)
prefix_eq-and_bytes n (x ∷ xs) (y ∷ ys) h hx hy = elim (Bool-cases (leb 8 n)) [
  | inl whole ↦ rw (
    whole,
    bit_and-ff x hx.0,
    bit_and-ff y hy.0,
    prefix_eq-and_bytes (n - 8) xs ys (omega arith) hx.1 hy.1,
  )
  | inr part ↦
      let low : n < 8 = ground arith in
      let rest : n - 8 ≡ 0 = omega arith in
      rw (part, masked_byte n x y low hx.0 hy.0, rest, masked_rest xs ys (omega arith) hx.1 hy.1)
        (sym (and_true _))
]
