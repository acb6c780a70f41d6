-- ===== src/Audit/Dns/Addresses.antt =====
-- pkg/audit/network/manager.go: the addresses of an answer in the tries.
use bouheki.Prelude.{
  ℕ, zero, suc, ◌+◌, ◌-◌, ◌*◌, ◌≤◌, ◌≡◌, refl, sym, ap, ap₂, ◌∙◌, List, [], ◌∷◌, String, Bool, true,
  false, ◌||◌, not, if◌then◌else◌, ◌==◌, ==_iff, leb, length, is_some, take, arith, &&_parts,
  Bool-cases, Option-cases, inl, inr, ◌&&◌, none, some,
}
use bouheki.Audit.Network.Ip.{
  AreBytes, IpNet, and_bytes, bytes_eq, cidr_mask, contains, ip_mask, to4,
}
use bouheki.Audit.Network.Trie.{IsTrie, Trie, any, bit_and-ff, matches}
use bouheki.Audit.Network.Setters.{Libbpf, Store}
use bouheki.Audit.Network.Cidr.{
  key_of_net, address_to_bpf_map_key, domain_name_to_bpf_map_key, ip_address_to_bpf_map_key,
  update_addresses,
}
use bouheki.Audit.Network.Entries.{AreNames, hit}
use bouheki.Audit.Network.Ranges.{IsRange, address_of, bits, bytes}
use bouheki.Audit.Network.Covered.{hit-range, search, search-found, search_key}
use bouheki.Audit.Network.Writes.{Writing-update_addresses, any-keys_of, any-puts, keys_of}
use bouheki.Audit.Dns.Wire.{
  AreAddresses, IsAddress, IsIp, key_v4, none-IsAddress, plain, to4-IsAddress, to4-four,
}

-- The range of the address alone.
abbrev pub alone : Bool → List ℕ → IpNet
alone is_v6 address = record { ip = address; mask = cidr_mask (bits is_v6) (bytes is_v6) }

alone-IsRange :
    (is_v6 : Bool) (address : List ℕ)
    → IsAddress is_v6 address
    → IsRange is_v6 (alone is_v6 address)
alone-IsRange is_v6 address i = record {
  is_ip_net = record {
    ones = bits is_v6;
    ones_bound = bound is_v6;
    length-ip = i.length-address;
    ip-AreBytes = i.address-AreBytes;
    mask-cidr_mask = refl;
  };
  family = i.family;
}
  where
    bound : (v : Bool) → bits v ≤ 8 * bytes v
    bound true = omega arith
    bound false = omega arith

key_alone :
    (is_v6 : Bool) (address : List ℕ)
    → IsAddress is_v6 address
    → address_to_bpf_map_key address ≡ ip_address_to_bpf_map_key (address_of (alone is_v6 address))
unfolding address_to_bpf_map_key
key_alone true address i = rw i.family
key_alone false address i = rw i.family

-- A mask of ones keeps all bits.
whole_mask :
    (xs : List ℕ) (len : ℕ)
    → length xs ≡ len
    → AreBytes xs
    → and_bytes xs (cidr_mask (8 * len) len) ≡ xs
unfolding cidr_mask
whole_mask [] len h hx = refl
whole_mask (x ∷ xs) zero h hx = absurd (omega arith)
whole_mask (x ∷ xs) (suc len) h hx =
    let ones : leb 8 (8 * suc len) ≡ true = ground arith in
    let rest : 8 * suc len - 8 ≡ 8 * len = omega arith in
    rw (ones, rest, bit_and-ff x hx.0, whole_mask xs len (omega arith) hx.1)

whole :
    (v : Bool) (xs : List ℕ)
    → length xs ≡ bytes v
    → AreBytes xs
    → and_bytes xs (cidr_mask (bits v) (bytes v)) ≡ xs
whole true xs h hx = whole_mask xs 16 h hx
whole false xs h hx = whole_mask xs 4 h hx

bytes_eq-length : (xs ys : List ℕ) → bytes_eq xs ys ≡ true → length xs ≡ length ys
bytes_eq-length [] [] h = refl
bytes_eq-length [] (y ∷ ys) h = absurd (cc h)
bytes_eq-length (x ∷ xs) [] h = absurd (cc h)
bytes_eq-length (x ∷ xs) (y ∷ ys) h =
    ap suc (bytes_eq-length xs ys ((&&_parts (x == y) (bytes_eq xs ys) h).1))

-- The range of one address contains that address alone.
contains-alone :
    (v : Bool) (address d : List ℕ)
    → IsAddress v address
    → AreBytes d
    → contains (alone v address) d ≡ bytes_eq address d
contains-alone v address d i hd = elim (Bool-cases (length address == length d)) [
  | inl same ↦
      let h : length d ≡ bytes v =
        sym ((==_iff (length address) (length d)).0 same) ∙ i.length-address in
      rw (whole v address i.length-address i.address-AreBytes, whole v d h hd, same)
  | inr differ ↦ elim (Bool-cases (bytes_eq address d)) [
    | inl e ↦
        let same = (==_iff (length address) (length d)).1 (bytes_eq-length address d e) in
        absurd (cc (sym same ∙ differ))
    | inr ne ↦ rw (differ, ne)
  ]
]

module _ (is_v6 : Bool) (d : List ℕ) (h : length d ≡ bytes is_v6) (hd : AreBytes d) where
  hit_v6 :
      (address : List ℕ)
      → IsAddress true address
      → hit is_v6 (4 + bytes is_v6) (search_key is_v6 d) (address_to_bpf_map_key address)
        ≡ bytes_eq address d
  hit_v6 address i =
      ap (hit is_v6 (4 + bytes is_v6) (search_key is_v6 d)) (key_alone true address i)
      ∙ (hit-range is_v6 (alone true address) d h hd (inl (alone-IsRange true address i))
          ∙ contains-alone true address d i hd)

  hit_v4 :
      (address : List ℕ)
      → IsAddress false address
      → hit is_v6 (4 + bytes is_v6) (search_key is_v6 d) (address_to_bpf_map_key address)
        ≡ bytes_eq address d
  hit_v4 address i =
      ap (hit is_v6 (4 + bytes is_v6) (search_key is_v6 d)) (key_alone false address i)
      ∙ (hit-range is_v6 (alone false address) d h hd (inr (alone-IsRange false address i))
          ∙ contains-alone false address d i hd)

  -- An entry depends on the family of its address and on its key.
  hit-same :
      (address v4 : List ℕ)
      → to4 address ≡ some v4
      → IsAddress false v4
      → ip_mask address (cidr_mask 32 4) ≡ ip_mask v4 (cidr_mask 32 4)
      → hit is_v6 (4 + bytes is_v6) (search_key is_v6 d) (address_to_bpf_map_key address)
        ≡ hit is_v6 (4 + bytes is_v6) (search_key is_v6 d) (address_to_bpf_map_key v4)
  unfolding address_to_bpf_map_key ip_address_to_bpf_map_key
  hit-same address v4 e i same =
      let mapped : not (is_some (to4 address)) ≡ false = ap (λ o. not (is_some o)) e in
      ap₂
        (λ v key.
          (if is_v6 then v else not v) && matches (search_key is_v6 d) (take (4 + bytes is_v6) key))
        (mapped ∙ sym i.family)
        (key_v4 address v4 e
          ∙ (ap (λ ip. key_of_net false (record { ip = ip; mask = cidr_mask 32 4 })) same
              ∙ sym (key_v4 v4 v4 (to4-four v4 i.length-address))))

  hit-address :
      (address : List ℕ)
      → IsIp address
      → hit is_v6 (4 + bytes is_v6) (search_key is_v6 d) (address_to_bpf_map_key address)
        ≡ bytes_eq (plain address) d
  hit-address address is_ip = elim (Option-cases (to4 address)) [
    | inl none_here ↦
        hit_v6 address (none-IsAddress address is_ip none_here)
        ∙ ap (λ o. bytes_eq (elim o [ none ↦ address | some v4 ↦ v4 ]) d) (sym none_here)
    | inr (v4, e) ↦
        let (i, same) = to4-IsAddress address v4 is_ip e in
        hit-same address v4 e i same
        ∙ (hit_v4 v4 i ∙ ap (λ o. bytes_eq (elim o [ none ↦ address | some v ↦ v ]) d) (sym e))
  ]

  hit-addresses :
      (addresses : List (List ℕ))
      → AreAddresses addresses
      → any
          (hit is_v6 (4 + bytes is_v6) (search_key is_v6 d))
          (domain_name_to_bpf_map_key addresses)
        ≡ any (λ address. bytes_eq (plain address) d) addresses
  hit-addresses [] are = refl
  hit-addresses (address ∷ addresses) are =
      ap₂ ◌||◌ (hit-address address are.0) (hit-addresses addresses are.1)

  -- After the addresses of an answer were written without an error, a search finds an address
  -- exactly if it is one of them, on the wire, or was found before.
  pub search-update_addresses :
      (t : Trie) (lib : Libbpf) (v4_name v6_name : String) (addresses : List (List ℕ))
      (store : Store)
      → IsTrie t
      → AreNames v4_name v6_name
      → AreAddresses addresses
      → (update_addresses lib v4_name v6_name (domain_name_to_bpf_map_key addresses) store).0 ≡ true
      → search t is_v6
          ((update_addresses lib v4_name v6_name (domain_name_to_bpf_map_key addresses) store).1
            (if is_v6 then v6_name else v4_name))
          d
        ≡ any (λ address. bytes_eq (plain address) d) addresses
          || search t is_v6 (store (if is_v6 then v6_name else v4_name)) d
  search-update_addresses t lib v4_name v6_name addresses store trie names are done =
      let name = if is_v6 then v6_name else v4_name in
      let accepts = λ (key : List ℕ). matches (search_key is_v6 d) (take (4 + bytes is_v6) key) in
      let keys = domain_name_to_bpf_map_key addresses in
      search-found t trie is_v6 d _
      ∙ (ap (λ st. any accepts (st name))
            ((Writing-update_addresses lib v4_name v6_name keys).written store done)
          ∙ (any-puts accepts name (keys_of v4_name v6_name keys) store
              ∙ ap₂ ◌||◌
                  (any-keys_of v4_name v6_name names is_v6 (4 + bytes is_v6) (search_key is_v6 d)
                      keys
                    ∙ hit-addresses addresses are)
                  (sym (search-found t trie is_v6 d (store name)))))
