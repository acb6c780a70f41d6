-- ===== src/Audit/Network/Covered.antt =====
-- pkg/audit/network/manager.go: after the lists of ranges were written, a search of the network
-- program finds an address exactly if a configured range contains it.
use bouheki.Prelude.{
  ℕ, not, ◌&&◌, ◌+◌, ◌≡◌, refl, sym, ap, ap₂, ◌∙◌, List, [], ◌∷◌, ◌++◌, String, Bool, true, false,
  ◌||◌, none, some, if◌then◌else◌, length, take, Option-cases, inl, inr, ◌⊎◌, map,
}
use bouheki.CType.{sizeof}
use bouheki.Buffer.{le_bytes}
use bouheki.Network.Structs.{ipv4_trie_key, ipv6_trie_key}
use bouheki.Audit.Network.Ip.{AreBytes, IpNet, contains}
use bouheki.Audit.Network.Trie.{IsTrie, Trie, any, matches}
use bouheki.Audit.Network.Setters.{Libbpf, Store}
use bouheki.Audit.Network.Cidr.{
  ParseCidr, cidr_to_bpf_map_key, ip_address_to_bpf_map_key, set_cidr_list,
}
use bouheki.Audit.Network.Entries.{AreNames, hit, parsed, parsed-some}
use bouheki.Audit.Network.Writes.{Writing-set_cidr_list, any-keys_of, any-puts, keys_of}
use bouheki.Audit.Network.Ranges.{
  IsRange, address_of, bits, bytes, is_v6_address-address_of, matches_key,
}

-- Each range that can be parsed is an IPv4 network, or an IPv6 network that is not IPv4 mapped.
abbrev pub AreRanges : ParseCidr → List (List ℕ) → Type 0
AreRanges parse_cidr [] = Unit
AreRanges parse_cidr (addr ∷ addrs) =
    ((net : IpNet) → parse_cidr addr ≡ some net → IsRange true net ⊎ IsRange false net)
    × AreRanges parse_cidr addrs

-- The range, as written in the configuration, contains the address.
abbrev pub covers : ParseCidr → List ℕ → List ℕ → Bool
covers parse_cidr address cidr = elim (parse_cidr cidr) [
  | none ↦ false
  | some net ↦ contains net address
]

-- The bytes that a trie takes of a key, and the key under which the program looks an address up.
abbrev pub entry_size : Bool → ℕ
entry_size is_v6 = if is_v6 then sizeof ipv6_trie_key else sizeof ipv4_trie_key

abbrev pub search_key : Bool → List ℕ → List ℕ
search_key is_v6 address = le_bytes 4 (bits is_v6) ++ address

-- The search in one of the tries, given the keys that were written into it.
abbrev pub search : Trie → Bool → List (List ℕ) → List ℕ → Bool
search t is_v6 keys address =
    t.lookup (map (take (entry_size is_v6)) keys) (search_key is_v6 address)

entry_size_lem : (is_v6 : Bool) → entry_size is_v6 ≡ 4 + bytes is_v6
unfolding sizeof
entry_size_lem true = refl
entry_size_lem false = refl

pub hit-range :
    (is_v6 : Bool) (net : IpNet) (d : List ℕ)
    → length d ≡ bytes is_v6
    → AreBytes d
    → IsRange true net ⊎ IsRange false net
    → hit is_v6 (4 + bytes is_v6) (search_key is_v6 d) (ip_address_to_bpf_map_key (address_of net))
      ≡ contains net d
hit-range true net d h hd (inl r) =
    ap₂ ◌&&◌ (is_v6_address-address_of true net r) (matches_key true net r d h hd)
hit-range true net d h hd (inr r) =
    rw (is_v6_address-address_of false net r, r.is_ip_net.length-ip, h)
hit-range false net d h hd (inl r) =
    rw (is_v6_address-address_of true net r, r.is_ip_net.length-ip, h)
hit-range false net d h hd (inr r) =
    ap₂ (λ v m. not v && m) (is_v6_address-address_of false net r) (matches_key false net r d h hd)

parsed-none :
    (parse_cidr : ParseCidr) (addr : List ℕ) (addrs : List (List ℕ))
    → cidr_to_bpf_map_key parse_cidr addr ≡ none
    → parsed parse_cidr (addr ∷ addrs) ≡ parsed parse_cidr addrs
parsed-none parse_cidr addr addrs e = rw (e, parsed)

key_none :
    (parse_cidr : ParseCidr) (addr : List ℕ)
    → parse_cidr addr ≡ none
    → cidr_to_bpf_map_key parse_cidr addr ≡ none
unfolding cidr_to_bpf_map_key
key_none parse_cidr addr e = rw (e, cidr_to_bpf_map_key)

key_some :
    (parse_cidr : ParseCidr) (addr : List ℕ) (net : IpNet)
    → parse_cidr addr ≡ some net
    → cidr_to_bpf_map_key parse_cidr addr ≡ some (ip_address_to_bpf_map_key (address_of net))
unfolding cidr_to_bpf_map_key
key_some parse_cidr addr net e = rw (e, cidr_to_bpf_map_key)

pub any-map :
    {A : Type 0}
    → (p : List ℕ → Bool) (f : A → List ℕ) (xs : List A) → any p (map f xs) ≡ any (λ x. p (f x)) xs
any-map p f [] = refl
any-map p f (x ∷ xs) = ap (λ b. p (f x) || b) (any-map p f xs)

-- A search, by the prefixes of the keys.
pub search-found :
    (t : Trie)
    → IsTrie t
    → (is_v6 : Bool) (d : List ℕ) (keys : List (List ℕ))
    → search t is_v6 keys d
      ≡ any (λ key. matches (search_key is_v6 d) (take (4 + bytes is_v6) key)) keys
search-found t trie is_v6 d keys =
    trie.finds _ _
    ∙ (ap (λ n. any (matches (search_key is_v6 d)) (map (take n) keys)) (entry_size_lem is_v6)
        ∙ any-map (matches (search_key is_v6 d)) (take (4 + bytes is_v6)) keys)

module _ (parse_cidr : ParseCidr) (is_v6 : Bool) (d : List ℕ) (h : length d ≡ bytes is_v6)
    (hd : AreBytes d) where
  -- Of the keys of the configured ranges one is found exactly if its range contains the address.
  pub hit-parsed :
      (cidrs : List (List ℕ))
      → AreRanges parse_cidr cidrs
      → any (hit is_v6 (4 + bytes is_v6) (search_key is_v6 d)) (parsed parse_cidr cidrs)
        ≡ any (covers parse_cidr d) cidrs
  hit-parsed [] ranges = refl
  hit-parsed (cidr ∷ cidrs) ranges = elim (Option-cases (parse_cidr cidr)) [
    | inl e ↦
        ap (any (hit is_v6 (4 + bytes is_v6) (search_key is_v6 d)))
          (parsed-none parse_cidr cidr cidrs (key_none parse_cidr cidr e))
        ∙ (hit-parsed cidrs ranges.1 ∙ rw (e, covers))
    | inr (net, e) ↦
        ap (any (hit is_v6 (4 + bytes is_v6) (search_key is_v6 d)))
          (parsed-some parse_cidr cidr cidrs _ (key_some parse_cidr cidr net e))
        ∙ (ap₂ ◌||◌ (hit-range is_v6 net d h hd (ranges.0 net e)) (hit-parsed cidrs ranges.1)
            ∙ rw (e, covers))
  ]

  module _ (lib : Libbpf) (v4_name v6_name : String) (names : AreNames v4_name v6_name) (t : Trie)
      (trie : IsTrie t) where
    -- After ranges were written without an error, a search finds an address exactly if one of them
    -- contains it or it was found before.
    pub search-set_cidr_list :
        (cidrs : List (List ℕ)) (store : Store)
        → AreRanges parse_cidr cidrs
        → (set_cidr_list lib v4_name v6_name parse_cidr cidrs store).0 ≡ true
        → search t is_v6
            ((set_cidr_list lib v4_name v6_name parse_cidr cidrs store).1
              (if is_v6 then v6_name else v4_name))
            d
          ≡ any (covers parse_cidr d) cidrs
            || search t is_v6 (store (if is_v6 then v6_name else v4_name)) d
    search-set_cidr_list cidrs store ranges done =
        let name = if is_v6 then v6_name else v4_name in
        let accepts = λ (key : List ℕ). matches (search_key is_v6 d) (take (4 + bytes is_v6) key) in
        let same =
          (Writing-set_cidr_list lib v4_name v6_name parse_cidr cidrs).written store done in
        search-found t trie is_v6 d _
        ∙ (ap (λ st. any accepts (st name)) same
            ∙ (any-puts accepts name (keys_of v4_name v6_name (parsed parse_cidr cidrs)) store
                ∙ ap₂ ◌||◌
                    (any-keys_of v4_name v6_name names is_v6 (4 + bytes is_v6) (search_key is_v6 d)
                        (parsed parse_cidr cidrs)
                      ∙ hit-parsed cidrs ranges)
                    (sym (search-found t trie is_v6 d (store name)))))
