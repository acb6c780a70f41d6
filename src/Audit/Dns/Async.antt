-- ===== src/Audit/Dns/Async.antt =====
-- pkg/audit/network/fqdn.go, AsyncResolve: for each domain of the two lists and each of the two
-- types of records a goroutine resolves and updates again and again. Their rounds interleave in any
-- order, with the world changing in between.
use bouheki.Prelude.{
  ℕ, ◌≡◌, refl, sym, ap, ◌∙◌, List, [], ◌∷◌, String, Bool, true, false, ◌||◌, ◌==◌, Bool-cases, inl,
  inr, ◌⊎◌, length, take, ◌+◌,
}
use mathlib.Core.List.{Mem}
use bouheki.Audit.Network.Ip.{AreBytes, bytes_eq}
use bouheki.Audit.Network.Trie.{IsTrie, Trie, any, matches}
use bouheki.Audit.Network.Manager.{RestrictedNetworkConfig}
use bouheki.Audit.Network.Setters.{Libbpf, Store, and_then}
use bouheki.Audit.Network.Cidr.{
  IpAddress, allowed_v4_cidr_list_map_name, allowed_v6_cidr_list_map_name, cidr_list_update,
  domain_name_to_bpf_map_key, family_name, update_addresses, update_allowed_fqdn_list,
  update_denied_fqdn_list,
}
use bouheki.Audit.Network.Writes.{any-put}
use bouheki.Audit.Dns.{
  Client, DnsAnswer, Result, failed, panicked, resolve, returned, type_a, type_aaaa,
}
use bouheki.Audit.Dns.Addresses.{search-update_addresses}
use bouheki.Audit.Dns.Wire.{AreAddresses, plain}
use bouheki.Audit.Network.Entries.{allowed-AreNames}
use bouheki.Audit.Network.Ranges.{bytes}
use bouheki.Audit.Network.Covered.{search, search-found, search_key}
use bouheki.Audit.Dns.Update.{
  State, Update, refresh, resolve_and_update, resolve_and_update_allowed_fqdn_list,
  resolve_and_update_denied_fqdn_list,
}

or_true : (b : Bool) → b || true ≡ true
or_true true = refl
or_true false = refl

-- An update that removes nothing, whether it ends with an error or not.
pub record Keeping (update : Store → Bool × Store) : Type 0 where
  pub kept :
      (p : List ℕ → Bool) (name : String) (store : Store)
      → any p (store name) ≡ true
      → any p ((update store).1 name) ≡ true

Keeping-cidr_list_update :
    (lib : Libbpf) (a : IpAddress) (map_name : String) → Keeping (cidr_list_update lib a map_name)
unfolding cidr_list_update
Keeping-cidr_list_update lib a map_name = record {
  kept = λ p name store h. elim (Bool-cases (lib.get_map map_name)) [
    | inl found ↦ elim (Bool-cases (lib.update store map_name a.key)) [
      | inl updated ↦ rw (found, updated) (any-put p name map_name a.key store ∙ rw h (or_true _))
      | inr refused ↦ rw (found, refused) h
    ]
    | inr missing ↦ rw missing h
  ];
}

Keeping-and_then :
    (f g : Store → Bool × Store) → Keeping f → Keeping g → Keeping (λ store. and_then (f store) g)
Keeping-and_then f g hf hg = record {
  kept = λ p name store h. chained p name (f store) (hf.kept p name store h);
}
  where
    chained :
        (p : List ℕ → Bool) (name : String) (r : Bool × Store)
        → any p (r.1 name) ≡ true
        → any p ((and_then r g).1 name) ≡ true
    chained p name (true, store) h = hg.kept p name store h
    chained p name (false, store) h = h

pub Keeping-update_addresses :
    (lib : Libbpf) (v4_name v6_name : String) (addrs : List IpAddress)
    → Keeping (update_addresses lib v4_name v6_name addrs)
unfolding update_addresses
Keeping-update_addresses lib v4_name v6_name [] = record { kept = λ p name store h. h }
Keeping-update_addresses lib v4_name v6_name (a ∷ addrs) =
    Keeping-and_then (cidr_list_update lib a (family_name v4_name v6_name a))
      (λ st. update_addresses lib v4_name v6_name addrs st)
      (Keeping-cidr_list_update lib a (family_name v4_name v6_name a))
      (Keeping-update_addresses lib v4_name v6_name addrs)

module _ {W : Type 0} (lib : Libbpf) (client : Client W) (servers : List (List ℕ))
    (c : RestrictedNetworkConfig) where
  -- A round of one of the goroutines, or a change of the world.
  pub data Step : State W → State W → Type 0 where
    allowed_round :
        (domain : List ℕ) (record_type : ℕ) (s : State W)
        → Mem domain c.allow_domains
        → (record_type ≡ type_a) ⊎ (record_type ≡ type_aaaa)
        → Step s (resolve_and_update_allowed_fqdn_list lib client servers domain record_type s).1
    denied_round :
        (domain : List ℕ) (record_type : ℕ) (s : State W)
        → Mem domain c.deny_domains
        → (record_type ≡ type_a) ⊎ (record_type ≡ type_aaaa)
        → Step s (resolve_and_update_denied_fqdn_list lib client servers domain record_type s).1
    meanwhile :
        (world : W) (s : State W)
        → Step s (record { entry = s.entry; store = s.store; world = world })

  pub data Steps : State W → State W → Type 0 where
    stay : (s : State W) → Steps s s
    then_step : (s s' s'' : State W) → Step s s' → Steps s' s'' → Steps s s''

  refresh-keeps :
      (update : Update)
      → ((addresses : List (List ℕ)) → Keeping (update addresses))
      → (r : Result DnsAnswer × W) (s : State W) (p : List ℕ → Bool) (name : String)
      → any p (s.store name) ≡ true
      → any p ((refresh lib client servers update r s).1.store name) ≡ true
  refresh-keeps update k (returned answer, w) s p name h =
      (k answer.addresses).kept p name s.store h
  refresh-keeps update k (failed, w) s p name h = h
  refresh-keeps update k (panicked, w) s p name h = h

  round-keeps :
      (update : Update)
      → ((addresses : List (List ℕ)) → Keeping (update addresses))
      → (domain : List ℕ) (record_type : ℕ) (s : State W) (p : List ℕ → Bool) (name : String)
      → any p (s.store name) ≡ true
      → any p ((resolve_and_update lib client servers update domain record_type s).1.store name)
        ≡ true
  round-keeps update k domain record_type s p name h = elim (Bool-cases (record_type == type_a)) [
    | inl v4 ↦
        rw v4 (refresh-keeps update k (resolve client servers domain type_a s.world) s p name h)
    | inr not_v4 ↦ elim (Bool-cases (record_type == type_aaaa)) [
      | inl v6 ↦
          rw (not_v4, v6)
            (refresh-keeps update k (resolve client servers domain type_aaaa s.world) s p name h)
      | inr not_v6 ↦ rw (not_v4, not_v6) h
    ]
  ]

  Step-keeps :
      (s s' : State W) (p : List ℕ → Bool) (name : String)
      → Step s s'
      → any p (s.store name) ≡ true
      → any p (s'.store name) ≡ true
  unfolding resolve_and_update_allowed_fqdn_list resolve_and_update_denied_fqdn_list
      update_allowed_fqdn_list update_denied_fqdn_list
  Step-keeps s s' p name (allowed_round domain record_type v m t) h =
      round-keeps _
        (λ addresses. Keeping-update_addresses lib _ _ (domain_name_to_bpf_map_key addresses))
        domain record_type s p name h
  Step-keeps s s' p name (denied_round domain record_type v m t) h =
      round-keeps _
        (λ addresses. Keeping-update_addresses lib _ _ (domain_name_to_bpf_map_key addresses))
        domain record_type s p name h
  Step-keeps s s' p name (meanwhile world v) h = h

  -- However the rounds interleave, whatever the servers answer and whichever update fails, a key
  -- that a map holds stays in it: an address of a domain is never taken out of the lists again.
  pub Steps-keep :
      (s s' : State W) (p : List ℕ → Bool) (name : String)
      → Steps s s'
      → any p (s.store name) ≡ true
      → any p (s'.store name) ≡ true
  Steps-keep s s' p name (stay v) h = h
  Steps-keep s s'' p name (then_step v s' v'' step steps) h =
      Steps-keep s' s'' p name steps (Step-keeps s s' p name step h)

returned-injective : (x y : DnsAnswer) → Path (Result DnsAnswer) (returned x) (returned y) → x ≡ y
returned-injective x y e =
    ap (λ r. elim r as (λ u. DnsAnswer) [ returned z ↦ z | failed ↦ x | panicked ↦ x ]) e

refresh-returned :
    {W : Type 0}
    → (lib : Libbpf) (client : Client W) (servers : List (List ℕ)) (update : Update)
      (r : Result DnsAnswer × W) (s : State W) (answer : DnsAnswer)
    → r.0 ≡ returned answer
    → (refresh lib client servers update r s).1.store ≡ (update answer.addresses s.store).1
refresh-returned lib client servers update (returned x, w) s answer e =
    ap (λ y. (update y.addresses s.store).1) (returned-injective x answer e)
refresh-returned lib client servers update (failed, w) s answer e = absurd (cc e)
refresh-returned lib client servers update (panicked, w) s answer e = absurd (cc e)

-- A round has resolved the A records of a domain, and its update of the allowed ones had no error,
-- which the round would swallow. Then every IPv4 address of the answer, whether the answer writes it
-- with 4 bytes or with 16, is found among the allowed ones after any further rounds, also when it is
-- no longer an address of the domain.
pub resolved_stays_allowed :
    {W : Type 0}
    → (lib : Libbpf) (client : Client W) (servers : List (List ℕ)) (c : RestrictedNetworkConfig)
      (t : Trie) (domain : List ℕ) (s s' : State W) (answer : DnsAnswer) (d : List ℕ)
    → IsTrie t
    → (resolve client servers domain type_a s.world).0 ≡ returned answer
    → AreAddresses answer.addresses
    → (update_allowed_fqdn_list lib answer.addresses s.store).0 ≡ true
    → length d ≡ 4
    → AreBytes d
    → any (λ address. bytes_eq (plain address) d) answer.addresses ≡ true
    → Steps lib client servers c
        (resolve_and_update_allowed_fqdn_list lib client servers domain type_a s).1
        s'
    → search t false (s'.store allowed_v4_cidr_list_map_name) d ≡ true
unfolding resolve_and_update_allowed_fqdn_list update_allowed_fqdn_list
resolved_stays_allowed lib client servers c t domain s s' answer d trie resolved are updated h hd
      among steps =
    let after = (resolve_and_update_allowed_fqdn_list lib client servers domain type_a s).1 in
    let name = allowed_v4_cidr_list_map_name in
    let accepts = λ (key : List ℕ). matches (search_key false d) (take (4 + bytes false) key) in
    let stored : after.store name ≡ (update_allowed_fqdn_list lib answer.addresses s.store).1 name =
      ap (λ st. st name)
        (refresh-returned lib client servers (update_allowed_fqdn_list lib)
          (resolve client servers domain type_a s.world) s answer resolved) in
    let here : search t false (after.store name) d ≡ true =
      ap (λ keys. search t false keys d) stored
      ∙ (search-update_addresses false d h hd t lib name allowed_v6_cidr_list_map_name
            answer.addresses s.store trie allowed-AreNames are updated
          ∙ rw among) in
    search-found t trie false d _
    ∙ Steps-keep lib client servers c after s' accepts name steps
        (sym (search-found t trie false d (after.store name)) ∙ here)
