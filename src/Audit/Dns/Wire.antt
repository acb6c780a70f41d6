-- ===== src/Audit/Dns/Wire.antt =====
-- pkg/audit/network/manager.go: the addresses of an answer as Go's package net has them, with 4 or with
-- 16 bytes, and as they are on the wire.
use bouheki.Prelude.{
  ℕ, zero, suc, ◌≡◌, sym, ap, ◌∙◌, List, [], ◌∷◌, Bool, true, false, not, if◌then◌else◌, ◌==◌,
  ==_iff, length, is_some, take, arith, &&_parts, Bool-cases, inl, inr, ◌⊎◌, ◌&&◌, drop, none, some,
}
use bouheki.Audit.Binary.{length-drop}
use bouheki.Audit.Dns.Names.{some-injective}
use bouheki.Audit.Network.Ip.{
  AreBytes, and_bytes, bytes_eq, cidr_mask, ip_mask, to4, v4_in_v6_prefix,
}
use bouheki.Audit.Network.Cidr.{key_of_net, address_to_bpf_map_key, ip_address_to_bpf_map_key}
use bouheki.Audit.Network.Ranges.{bytes}

-- An address of the family, of 16 bytes or of 4; an IPv4 address written with 16 bytes is neither.
pub record IsAddress (is_v6 : Bool) (address : List ℕ) : Type 0 where
  pub length-address : length address ≡ bytes is_v6
  pub address-AreBytes : AreBytes address
  pub family : not (is_some (to4 address)) ≡ is_v6

-- An address as Go has it: 4 or 16 bytes, where an IPv4 address may have either.
abbrev pub IsIp : List ℕ → Type 0
IsIp address = ((length address ≡ 4) ⊎ (length address ≡ 16)) × AreBytes address

abbrev pub AreAddresses : List (List ℕ) → Type 0
AreAddresses [] = Unit
AreAddresses (address ∷ addresses) = IsIp address × AreAddresses addresses

-- The address as it is on the wire: 4 bytes for IPv4, however it is written.
abbrev pub plain : List ℕ → List ℕ
plain address = elim (to4 address) [ none ↦ address | some v4 ↦ v4 ]

AreBytes-drop : (n : ℕ) (xs : List ℕ) → AreBytes xs → AreBytes (drop n xs)
AreBytes-drop zero xs h = h
AreBytes-drop (suc n) [] h = h
AreBytes-drop (suc n) (x ∷ xs) h = AreBytes-drop n xs h.1

-- The mask of an IPv4 address, which cuts one of 16 bytes down to its last 4.
ip_mask-mapped :
    (address : List ℕ)
    → length address ≡ 16
    → bytes_eq (take 12 address) v4_in_v6_prefix ≡ true
    → length (drop 12 address) ≡ 4
    → ip_mask address (cidr_mask 32 4) ≡ and_bytes (drop 12 address) (cidr_mask 32 4)
unfolding ip_mask cidr_mask
ip_mask-mapped address h mapped short = rw (h, mapped, short)

ip_mask-four :
    (address : List ℕ)
    → length address ≡ 4
    → ip_mask address (cidr_mask 32 4) ≡ and_bytes address (cidr_mask 32 4)
unfolding ip_mask cidr_mask
ip_mask-four address h = rw h (
    ap (λ b. if b then and_bytes address (cidr_mask 32 4) else [])
      ((==_iff (length address) 4).1 h))

-- The key of an IPv4 address.
pub key_v4 :
    (address v4 : List ℕ)
    → to4 address ≡ some v4
    → (address_to_bpf_map_key address).key
      ≡ key_of_net false (record { ip = ip_mask address (cidr_mask 32 4); mask = cidr_mask 32 4 })
unfolding address_to_bpf_map_key ip_address_to_bpf_map_key
key_v4 address v4 e = rw e

pub to4-four : (address : List ℕ) → length address ≡ 4 → to4 address ≡ some address
unfolding to4
to4-four address h = rw h

-- What To4 gives is an IPv4 address of 4 bytes, masked in the same way.
pub to4-IsAddress :
    (address v4 : List ℕ)
    → IsIp address
    → to4 address ≡ some v4
    → IsAddress false v4 × (ip_mask address (cidr_mask 32 4) ≡ ip_mask v4 (cidr_mask 32 4))
unfolding to4
to4-IsAddress address v4 (size, are) e = elim (Bool-cases (length address == 4)) [
  | inl four ↦
      let h = (==_iff _ _).0 four in
      let same : address ≡ v4 = some-injective (sym (to4-four address h) ∙ e) in
      (
        rw (← same) (record {
          length-address = h;
          address-AreBytes = are;
          family = rw (to4-four address h);
        }),
        ap (λ a. ip_mask a (cidr_mask 32 4)) same,
      )
  | inr other ↦
      elim (Bool-cases (length address == 16 && bytes_eq (take 12 address) v4_in_v6_prefix)) [
        | inl mapped ↦
            let parts = &&_parts (length address == 16) _ mapped in
            let h = (==_iff _ _).0 parts.0 in
            let same : drop 12 address ≡ v4 = some-injective (rw (other, mapped, to4) at e) in
            let e' = length-drop 12 address (omega arith) in
            let short : length (drop 12 address) ≡ 4 = omega arith in
            (
              rw (← same) (record {
                length-address = short;
                address-AreBytes = AreBytes-drop 12 address are;
                family = rw (to4-four (drop 12 address) short);
              }),
              ip_mask-mapped address h parts.1 short
                  ∙ (sym (ip_mask-four (drop 12 address) short)
                      ∙ ap (λ a. ip_mask a (cidr_mask 32 4)) same),
            )
        | inr unmapped ↦ absurd (cc (rw (other, unmapped, to4) at e))
      ]
]

-- Without an IPv4 address, it is one of IPv6.
pub none-IsAddress : (address : List ℕ) → IsIp address → to4 address ≡ none → IsAddress true address
unfolding to4
none-IsAddress address (inl four, are) e = absurd (cc (rw (four, to4) at e))
none-IsAddress address (inr h, are) e = record {
  length-address = h;
  address-AreBytes = are;
  family = rw e;
}
