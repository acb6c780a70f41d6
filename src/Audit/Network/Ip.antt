-- ===== src/Audit/Network/Ip.antt =====
-- What pkg/audit/network uses of Go's package net: addresses and masks, which are slices of bytes.
-- A slice that is nil is the empty list. `ParseCIDR` is a parameter.
use Prim.Native.Nat.{bit_and}
use bouheki.Prelude.{
  ℕ, zero, suc, ◌+◌, ◌-◌, ◌*◌, ◌/◌, ◌%◌, ◌^◌, ◌<◌, ◌≤◌, ◌≡◌, List, [], ◌∷◌, ◌++◌, Bool, true, false,
  ◌&&◌, Option, none, some, if◌then◌else◌, ◌==◌, leb, length, take, drop, replicate,
}

abbrev pub bytes_eq : List ℕ → List ℕ → Bool
bytes_eq [] [] = true
bytes_eq [] (y ∷ ys) = false
bytes_eq (x ∷ xs) [] = false
bytes_eq (x ∷ xs) (y ∷ ys) = x == y && bytes_eq xs ys

abbrev pub v4_in_v6_prefix : List ℕ
v4_in_v6_prefix = replicate 10 0 ++ 0xff ∷ 0xff ∷ []

-- IP.To4: the four bytes of an IPv4 address, which may be written as an IPv6 address.
unfoldable pub to4 : List ℕ → Option (List ℕ)
to4 ip =
    if length ip == 4
    then some ip
    else if length ip == 16 && bytes_eq (take 12 ip) v4_in_v6_prefix
    then some (drop 12 ip)
    else none

-- `out[i] = ip[i] & mask[i]`
abbrev pub and_bytes : List ℕ → List ℕ → List ℕ
and_bytes [] mask = []
and_bytes (b ∷ ip) [] = []
and_bytes (b ∷ ip) (m ∷ mask) = bit_and b m ∷ and_bytes ip mask

abbrev pub mask_of_length : List ℕ → List ℕ → List ℕ
mask_of_length ip mask = if length ip == length mask then and_bytes ip mask else []

abbrev pub all_ff : List ℕ → Bool
all_ff [] = true
all_ff (b ∷ bytes) = b == 0xff && all_ff bytes

-- IP.Mask
unfoldable pub ip_mask : List ℕ → List ℕ → List ℕ
ip_mask ip mask =
    let mask' =
      if length mask == 16 && (length ip == 4 && all_ff (take 12 mask))
      then drop 12 mask
      else mask in
    let ip' =
      if length mask' == 4 && (length ip == 16 && bytes_eq (take 12 ip) v4_in_v6_prefix)
      then drop 12 ip
      else ip in
    mask_of_length ip' mask'

-- CIDRMask: a mask of `len` bytes with `ones` leading ones.
unfoldable pub cidr_mask : ℕ → ℕ → List ℕ
cidr_mask ones zero = []
cidr_mask ones (suc len) =
    (if leb 8 ones then 0xff else 0xff - 0xff / 2 ^ ones) ∷ cidr_mask (ones - 8) len

-- `for v&0x80 != 0 { n++; v <<= 1 }` on a byte, which has eight bits: the ones counted, and `v`.
unfoldable pub leading_ones : ℕ → ℕ → ℕ × ℕ
leading_ones zero v = (0, v)
leading_ones (suc rounds) v =
    let (n, v') = leading_ones rounds (v * 2 % 256) in
    if bit_and v 0x80 == 0 then (0, v) else (n + 1, v')

abbrev pub all_zero : List ℕ → Bool
all_zero [] = true
all_zero (b ∷ bytes) = b == 0 && all_zero bytes

-- simpleMaskLength, after `n` ones; none stands for -1.
unfoldable pub simple_mask_length : ℕ → List ℕ → Option ℕ
simple_mask_length n [] = some n
simple_mask_length n (v ∷ mask) =
    let rest = simple_mask_length (n + 8) mask in
    let (ones, v') = leading_ones 8 v in
    if v == 0xff then rest else if v' == 0 && all_zero mask then some (n + ones) else none

-- The first result of IPMask.Size.
abbrev pub mask_ones : Option ℕ → ℕ
mask_ones none = 0
mask_ones (some n) = n

unfoldable pub mask_size : List ℕ → ℕ
mask_size mask = mask_ones (simple_mask_length 0 mask)

-- type IPNet
pub record IpNet : Type 0 where
  pub ip : List ℕ
  pub mask : List ℕ

abbrev pub AreBytes : List ℕ → Type 0
AreBytes [] = Unit
AreBytes (b ∷ bytes) = (b < 256) × AreBytes bytes

-- The networks that ParseCIDR documents: an address of `len` bytes and a mask of as many, with the
-- prefix length as its number of ones.
pub record IsIpNet (len : ℕ) (net : IpNet) : Type 0 where
  pub ones : ℕ
  pub ones_bound : ones ≤ 8 * len
  pub length-ip : length net.ip ≡ len
  pub ip-AreBytes : AreBytes net.ip
  pub mask-cidr_mask : net.mask ≡ cidr_mask ones len

-- The address, of as many bytes as that of the network, lies in it: under the mask both are one.
abbrev pub contains : IpNet → List ℕ → Bool
contains net address =
    length net.ip == length address
    && bytes_eq (and_bytes net.ip net.mask) (and_bytes address net.mask)
