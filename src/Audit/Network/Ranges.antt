-- ===== src/Audit/Network/Ranges.antt =====
-- pkg/audit/network/manager.go: when the key of a range, or of one address, is found under an
-- address.
use bouheki.Prelude.{
  ℕ, ◌+◌, ◌-◌, is_some, ◌*◌, ◌^◌, ◌≤◌, ◌<◌, ◌≡◌, refl, sym, ap, ap₂, ==_iff, ◌∙◌, List, [], ◌∷◌,
  ◌++◌, Bool, true, false, not, if◌then◌else◌, leb, length, take, drop, replicate, arith, zero, suc,
}
use bouheki.Buffer.{from_le_bytes, le_bytes}
use bouheki.Buffer.Bytes.{from_le_bytes-le_bytes, length-le_bytes, read_at-write_two}
use bouheki.Audit.Network.Ip.{
  AreBytes, IpNet, IsIpNet, and_bytes, cidr_mask, contains, ip_mask, mask_size, to4,
}
use bouheki.Audit.Network.Trie.{matches, prefix_eq, prefix_eq-and_bytes, prefixlen}
use bouheki.Audit.Network.Masks.{mask_size-cidr_mask}
use bouheki.Audit.Network.Manager.{ipv4_to_key, ipv6_to_key}
use bouheki.Audit.Network.Cidr.{IpAddress, ip_address_to_bpf_map_key, is_v6_address, key_of_net}

length-cidr_mask : (ones len : ℕ) → length (cidr_mask ones len) ≡ len
unfolding cidr_mask
length-cidr_mask ones zero = refl
length-cidr_mask ones (suc len) = ap suc (length-cidr_mask (ones - 8) len)

length-and_bytes : (xs ys : List ℕ) → length xs ≡ length ys → length (and_bytes xs ys) ≡ length xs
length-and_bytes [] ys h = refl
length-and_bytes (x ∷ xs) [] h = absurd (omega arith)
length-and_bytes (x ∷ xs) (y ∷ ys) h = ap suc (length-and_bytes xs ys (omega arith))

-- The bytes of an address and a mask of one length.
abbrev pub bits : Bool → ℕ
bits is_v6 = if is_v6 then 128 else 32

abbrev pub bytes : Bool → ℕ
bytes is_v6 = if is_v6 then 16 else 4

-- A network whose address the code takes for one of the family.
pub record IsRange (is_v6 : Bool) (net : IpNet) : Type 0 where
  pub is_ip_net : IsIpNet (bytes is_v6) net
  pub family : not (is_some (to4 net.ip)) ≡ is_v6

ip_mask-same :
    (is_v6 : Bool) (ip mask : List ℕ)
    → length ip ≡ bytes is_v6
    → length mask ≡ bytes is_v6
    → ip_mask ip mask ≡ and_bytes ip mask
unfolding ip_mask
ip_mask-same true ip mask h g = rw (g, h, g, h)
ip_mask-same false ip mask h g = rw (g, h, g, h)

-- The bytes that the trie takes of a key of the family.
key_lem :
    (is_v6 : Bool) (net : IpNet)
    → length net.ip ≡ bytes is_v6
    → take (4 + bytes is_v6) (key_of_net is_v6 net) ≡ le_bytes 4 (mask_size net.mask) ++ net.ip
unfolding ipv4_to_key ipv6_to_key
key_lem true net h =
    read_at-write_two 4 16 (le_bytes 4 (mask_size net.mask)) net.ip (replicate 20 0)
      (length-le_bytes 4 (mask_size net.mask)) h (omega arith)
key_lem false net h =
    read_at-write_two 4 4 (le_bytes 4 (mask_size net.mask)) net.ip (replicate 16 0)
      (length-le_bytes 4 (mask_size net.mask)) h (omega arith)

leb-true : (a b : ℕ) → a ≤ b → leb a b ≡ true
leb-true a b h = ground arith

take-le_bytes : (n : ℕ) (bs : List ℕ) → take 4 (le_bytes 4 n ++ bs) ≡ le_bytes 4 n
unfolding le_bytes
take-le_bytes n bs = refl

drop-le_bytes : (n : ℕ) (bs : List ℕ) → drop 4 (le_bytes 4 n ++ bs) ≡ bs
unfolding le_bytes
drop-le_bytes n bs = refl

prefixlen_lem : (n : ℕ) (bs : List ℕ) → n < 2 ^ 32 → prefixlen (le_bytes 4 n ++ bs) ≡ n
prefixlen_lem n bs h =
    ap from_le_bytes (take-le_bytes n bs) ∙ from_le_bytes-le_bytes 4 n (omega arith)

matches_lem :
    (full ones : ℕ) (prefix key : List ℕ)
    → full < 2 ^ 32
    → ones ≤ full
    → matches (le_bytes 4 full ++ key) (le_bytes 4 ones ++ prefix) ≡ prefix_eq ones prefix key
matches_lem full ones prefix key h g = rw (
  prefixlen_lem full key h,
  prefixlen_lem ones prefix (omega arith),
  drop-le_bytes full key,
  drop-le_bytes ones prefix,
  leb-true ones full g,
)

bits-bytes : (b : Bool) → 8 * bytes b ≡ bits b
bits-bytes true = refl
bits-bytes false = refl

bits_bound : (b : Bool) → bits b < 2 ^ 32
bits_bound true = omega arith
bits_bound false = omega arith

-- The address of a configured range, before its key is made.
abbrev pub address_of : IpNet → IpAddress
address_of net = record { address = net.ip; cidr_mask = net.mask; key = [] }

module _ (is_v6 : Bool) (net : IpNet) (r : IsRange is_v6 net) where
  abbrev ones : ℕ
  ones = r.is_ip_net.ones

  pub is_v6_address-address_of : is_v6_address (ip_address_to_bpf_map_key (address_of net)) ≡ is_v6
  unfolding ip_address_to_bpf_map_key
  is_v6_address-address_of = r.family

  few_ones : ones ≤ bits is_v6
  few_ones = omega (arith, r.is_ip_net.ones_bound, bits-bytes is_v6)

  mask_length : length net.mask ≡ bytes is_v6
  mask_length = ap length r.is_ip_net.mask-cidr_mask ∙ length-cidr_mask ones (bytes is_v6)

  masked_ip : ip_mask net.ip net.mask ≡ and_bytes net.ip (cidr_mask ones (bytes is_v6))
  masked_ip =
      ip_mask-same is_v6 net.ip net.mask r.is_ip_net.length-ip mask_length
      ∙ ap (and_bytes net.ip) r.is_ip_net.mask-cidr_mask

  prefix_length : mask_size net.mask ≡ ones
  prefix_length =
      ap mask_size r.is_ip_net.mask-cidr_mask
      ∙ mask_size-cidr_mask ones (bytes is_v6) r.is_ip_net.ones_bound

  taken_key :
      take (4 + bytes is_v6) (ip_address_to_bpf_map_key (address_of net)).key
      ≡ le_bytes 4 ones ++ and_bytes net.ip (cidr_mask ones (bytes is_v6))
  unfolding ip_address_to_bpf_map_key
  taken_key =
      ap (λ b. take (4 + bytes is_v6) (key_of_net b masked_net)) r.family
      ∙ (key_lem is_v6 masked_net masked_length
          ∙ ap₂ (λ n x. le_bytes 4 n ++ x) prefix_length masked_ip)
    where
      masked_net : IpNet
      masked_net = record { ip = ip_mask net.ip net.mask; mask = net.mask }

      masked_length : length masked_net.ip ≡ bytes is_v6
      masked_length =
          ap length (ip_mask-same is_v6 net.ip net.mask r.is_ip_net.length-ip mask_length)
          ∙ (length-and_bytes net.ip net.mask (r.is_ip_net.length-ip ∙ sym mask_length)
              ∙ r.is_ip_net.length-ip)

  contains_lem :
      (d : List ℕ)
      → length d ≡ bytes is_v6
      → AreBytes d
      → prefix_eq ones (and_bytes net.ip (cidr_mask ones (bytes is_v6))) d ≡ contains net d
  contains_lem d h hd =
      let same : length net.ip ≡ length d = r.is_ip_net.length-ip ∙ sym h in
      ap (λ n. prefix_eq ones (and_bytes net.ip (cidr_mask ones n)) d) (sym r.is_ip_net.length-ip)
      ∙ (prefix_eq-and_bytes ones net.ip d same r.is_ip_net.ip-AreBytes hd
          ∙ rw (
            r.is_ip_net.mask-cidr_mask,
            r.is_ip_net.length-ip,
            h,
            (==_iff (bytes is_v6) (bytes is_v6)).1 refl,
          ))

  pub matches_key :
      (d : List ℕ)
      → length d ≡ bytes is_v6
      → AreBytes d
      → matches
          (le_bytes 4 (bits is_v6) ++ d)
          (take (4 + bytes is_v6) (ip_address_to_bpf_map_key (address_of net)).key)
        ≡ contains net d
  matches_key d h hd =
      ap (matches (le_bytes 4 (bits is_v6) ++ d)) taken_key
      ∙ (matches_lem (bits is_v6) ones (and_bytes net.ip (cidr_mask ones (bytes is_v6))) d
            (bits_bound is_v6) few_ones
          ∙ contains_lem d h hd)
