-- ===== src/Audit/Deployed/Searches.antt =====
-- What the network program finds in the filled tries, in terms of the configured ranges of
-- pkg/audit/network.
use bouheki.Prelude.{
  ℕ, ◌+◌, ◌≡◌, refl, ap, ap₂, ◌∙◌, List, String, Bool, true, false, ◌||◌, if◌then◌else◌, map, ◌==◌,
  length, take, Bool-cases, inl, inr,
}
use bouheki.CType.{sizeof}
use bouheki.Kernel.{Kernel}
use bouheki.Network.Structs.{af_inet6, ipv4_trie_key, ipv6_trie_key}
use bouheki.Network.Connect.{sa_family}
use bouheki.Network.Key.{destination4, destination6}
use bouheki.Network.Policy.{listed_cidr}
use bouheki.Audit.Network.Ip.{AreBytes}
use bouheki.Audit.Network.Trie.{IsTrie, Trie, any, matches}
use bouheki.Audit.Network.Manager.{RestrictedNetworkConfig}
use bouheki.Audit.Network.Cidr.{
  ParseCidr, allowed_v4_cidr_list_map_name, allowed_v6_cidr_list_map_name,
  denied_v4_cidr_list_map_name, denied_v6_cidr_list_map_name,
}
use bouheki.Audit.Network.Entries.{allowed-AreNames, denied-AreNames, parsed}
use bouheki.Audit.Network.Ranges.{bytes}
use bouheki.Audit.Network.Covered.{AreRanges, covers, hit-parsed, search, search-found, search_key}
use bouheki.Audit.Network.Writes.{any-keys_of, any-puts, puts, written_to}
use bouheki.Audit.Deployed.Startup.{allowed_ranges, denied_ranges, process_writes}
use bouheki.Audit.Deployed.Filled.{filled, nothing}
use bouheki.Audit.Deployed.Lookups.{any-keys_of-other, any-process_writes, or_false}

-- The address of the destination, as bytes.
abbrev pub destination : Kernel → ℕ → List ℕ
destination k address =
    if sa_family k address == af_inet6 then destination6 k address else destination4 k address

module _ (t : Trie) (trie : IsTrie t) (parse_cidr : ParseCidr) (c : RestrictedNetworkConfig)
    (is_v6 : Bool) (d : List ℕ) (h : length d ≡ bytes is_v6) (hd : AreBytes d) where
  abbrev accepts : List ℕ → Bool
  accepts key = matches (search_key is_v6 d) (take (4 + bytes is_v6) key)

  abbrev allowed_name : String
  allowed_name = if is_v6 then allowed_v6_cidr_list_map_name else allowed_v4_cidr_list_map_name

  abbrev denied_name : String
  denied_name = if is_v6 then denied_v6_cidr_list_map_name else denied_v4_cidr_list_map_name

  -- Nothing of the lists of commands, users and groups goes into a trie.
  no_process :
      (name : String)
      → any (written_to name accepts) (process_writes c) ≡ false
      → search t is_v6 (filled parse_cidr c name) d
        ≡ any (written_to name accepts) (denied_ranges parse_cidr c)
          || (any (written_to name accepts) (allowed_ranges parse_cidr c) || false)
  no_process name no_keys =
      search-found t trie is_v6 d _
      ∙ (any-puts accepts name (process_writes c) _
          ∙ (ap
                (λ b.
                  b
                  || any accepts (
                      puts (denied_ranges parse_cidr c) (puts (allowed_ranges parse_cidr c) nothing)
                        name))
                no_keys
              ∙ (any-puts accepts name (denied_ranges parse_cidr c)
                    (puts (allowed_ranges parse_cidr c) nothing)
                  ∙ ap (λ b. any (written_to name accepts) (denied_ranges parse_cidr c) || b)
                      (any-puts accepts name (allowed_ranges parse_cidr c) nothing))))

  pub allowed_search :
      AreRanges parse_cidr c.allow_cidrs
      → search t is_v6 (filled parse_cidr c allowed_name) d
        ≡ any (covers parse_cidr d) c.allow_cidrs
  allowed_search ranges =
      no_process allowed_name (none_of is_v6)
      ∙ (ap₂ (λ a b. a || (b || false)) (others is_v6)
            (any-keys_of _ _ allowed-AreNames is_v6 (4 + bytes is_v6) (search_key is_v6 d) _
              ∙ hit-parsed parse_cidr is_v6 d h hd c.allow_cidrs ranges)
          ∙ or_false _)
    where
      none_of :
          (v : Bool)
          → any
              (written_to
                (if v then allowed_v6_cidr_list_map_name else allowed_v4_cidr_list_map_name)
                accepts)
              (process_writes c)
            ≡ false
      none_of true = any-process_writes parse_cidr c accepts allowed_v6_cidr_list_map_name
      none_of false = any-process_writes parse_cidr c accepts allowed_v4_cidr_list_map_name

      others :
          (v : Bool)
          → any
              (written_to
                (if v then allowed_v6_cidr_list_map_name else allowed_v4_cidr_list_map_name)
                accepts)
              (denied_ranges parse_cidr c)
            ≡ false
      others true =
          any-keys_of-other accepts allowed_v6_cidr_list_map_name _ _
            (parsed parse_cidr c.deny_cidrs) refl refl
      others false =
          any-keys_of-other accepts allowed_v4_cidr_list_map_name _ _
            (parsed parse_cidr c.deny_cidrs) refl refl

  pub denied_search :
      AreRanges parse_cidr c.deny_cidrs
      → search t is_v6 (filled parse_cidr c denied_name) d ≡ any (covers parse_cidr d) c.deny_cidrs
  denied_search ranges =
      no_process denied_name (none_of is_v6)
      ∙ (ap₂ (λ a b. a || (b || false))
            (any-keys_of _ _ denied-AreNames is_v6 (4 + bytes is_v6) (search_key is_v6 d) _
              ∙ hit-parsed parse_cidr is_v6 d h hd c.deny_cidrs ranges)
            (others is_v6)
          ∙ or_false _)
    where
      none_of :
          (v : Bool)
          → any
              (written_to
                (if v then denied_v6_cidr_list_map_name else denied_v4_cidr_list_map_name)
                accepts)
              (process_writes c)
            ≡ false
      none_of true = any-process_writes parse_cidr c accepts denied_v6_cidr_list_map_name
      none_of false = any-process_writes parse_cidr c accepts denied_v4_cidr_list_map_name

      others :
          (v : Bool)
          → any
              (written_to
                (if v then denied_v6_cidr_list_map_name else denied_v4_cidr_list_map_name)
                accepts)
              (allowed_ranges parse_cidr c)
            ≡ false
      others true =
          any-keys_of-other accepts denied_v6_cidr_list_map_name _ _
            (parsed parse_cidr c.allow_cidrs) refl refl
      others false =
          any-keys_of-other accepts denied_v4_cidr_list_map_name _ _
            (parsed parse_cidr c.allow_cidrs) refl refl

-- Either family.
pub listed_cidr-search :
    (k : Kernel) (t : Trie) (v4_keys v6_keys : List (List ℕ)) (address : ℕ) (b : Bool)
    → ((is_v6 : Bool)
        → (sa_family k address == af_inet6) ≡ is_v6
        → search t is_v6 (if is_v6 then v6_keys else v4_keys) (destination k address) ≡ b)
    → listed_cidr k
        (λ key. t.lookup (map (take (sizeof ipv4_trie_key)) v4_keys) key)
        (λ key. t.lookup (map (take (sizeof ipv6_trie_key)) v6_keys) key)
        address
      ≡ b
listed_cidr-search k t v4_keys v6_keys address b h =
    elim (Bool-cases (sa_family k address == af_inet6)) [
      | inl v6 ↦ rw v6 (rw v6 at (h true v6))
      | inr v4 ↦ rw v4 (rw v4 at (h false v4))
    ]
