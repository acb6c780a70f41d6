-- ===== src/Audit/Network/Entries.antt =====
-- pkg/audit/network/manager.go: what a search finds in the tries after the manager has written
-- addresses into them.
use text.Mathlib.Text.{◌==◌ as str_eq}
use bouheki.Prelude.{
  is_some, ◌||◌, ℕ, ◌≡◌, refl, sym, ap, ◌∙◌, List, [], ◌∷◌, String, Bool, true, false, ◌&&◌, not,
  none, some, if◌then◌else◌, take, Option-cases, inl, inr,
}
use bouheki.Audit.Network.Trie.{matches}
use bouheki.Audit.Network.Setters.{Libbpf, Store, and_then, put}
use bouheki.Audit.Network.Groups.{if_done}
use bouheki.Audit.Network.Cidr.{
  allowed_v4_cidr_list_map_name, allowed_v6_cidr_list_map_name, denied_v4_cidr_list_map_name,
  denied_v6_cidr_list_map_name, IpAddress, ParseCidr, cidr_list_update, cidr_to_bpf_map_key,
  family_name, is_v6_address, set_cidr_list, update_addresses,
}

-- The address is of the family, IPv6 or IPv4, and its key is found.
abbrev pub hit : Bool → ℕ → List ℕ → IpAddress → Bool
hit is_v6 size key a =
    (if is_v6 then is_v6_address a else not (is_v6_address a)) && matches key (take size a.key)

-- The two names of a pair of maps are told apart.
pub record AreNames (v4_name v6_name : String) : Type 0 where
  pub v4-v4 : str_eq v4_name v4_name ≡ true
  pub v6-v6 : str_eq v6_name v6_name ≡ true
  pub v4-v6 : str_eq v4_name v6_name ≡ false
  pub v6-v4 : str_eq v6_name v4_name ≡ false

pub allowed-AreNames : AreNames allowed_v4_cidr_list_map_name allowed_v6_cidr_list_map_name
allowed-AreNames = record { v4-v4 = refl; v6-v6 = refl; v4-v6 = refl; v6-v4 = refl }

pub denied-AreNames : AreNames denied_v4_cidr_list_map_name denied_v6_cidr_list_map_name
denied-AreNames = record { v4-v4 = refl; v6-v6 = refl; v4-v6 = refl; v6-v4 = refl }

pub and_then-done :
    (r : Bool × Store) (next : Store → Bool × Store) → (and_then r next).0 ≡ true → r.0 ≡ true
and_then-done (true, store) next h = refl
and_then-done (false, store) next h = h

-- On success the same, if the continuations are.
and_then-agree :
    (r : Bool × Store) (f g : Store → Bool × Store)
    → (and_then r f).0 ≡ true
    → ((store : Store) → (f store).0 ≡ true → f store ≡ g store)
    → and_then r f ≡ and_then r g
and_then-agree (true, store) f g done same = same store done
and_then-agree (false, store) f g done same = refl

pub cidr_list_update-done :
    (lib : Libbpf) (a : IpAddress) (name : String) (store : Store)
    → (cidr_list_update lib a name store).0 ≡ true
    → cidr_list_update lib a name store ≡ (true, put name a.key store)
unfolding cidr_list_update
cidr_list_update-done lib a name store done =
    let (here, done') = if_done (lib.get_map name) _ store done in
    let (there, done'') = if_done (lib.update store name a.key) _ store done' in here ∙ there

-- The ranges as addresses with their keys; what cannot be parsed is left out.
abbrev pub parsed : ParseCidr → List (List ℕ) → List IpAddress
parsed parse_cidr [] = []
parsed parse_cidr (addr ∷ addrs) = elim (cidr_to_bpf_map_key parse_cidr addr) [
  | none ↦ parsed parse_cidr addrs
  | some a ↦ a ∷ parsed parse_cidr addrs
]

pub parsed-some :
    (parse_cidr : ParseCidr) (addr : List ℕ) (addrs : List (List ℕ)) (a : IpAddress)
    → cidr_to_bpf_map_key parse_cidr addr ≡ some a
    → parsed parse_cidr (addr ∷ addrs) ≡ a ∷ parsed parse_cidr addrs
parsed-some parse_cidr addr addrs a e = rw (e, parsed)

set_cidr_list-some :
    (lib : Libbpf) (v4_name v6_name : String) (parse_cidr : ParseCidr) (addr : List ℕ)
    (addrs : List (List ℕ)) (a : IpAddress) (store : Store)
    → cidr_to_bpf_map_key parse_cidr addr ≡ some a
    → set_cidr_list lib v4_name v6_name parse_cidr (addr ∷ addrs) store
      ≡ and_then
          (cidr_list_update lib a (family_name v4_name v6_name a) store)
          (λ st. set_cidr_list lib v4_name v6_name parse_cidr addrs st)
unfolding set_cidr_list
set_cidr_list-some lib v4_name v6_name parse_cidr addr addrs a store e = rw (e, set_cidr_list)

-- Without an error, the configured ranges were written as if they had been parsed before.
pub set_cidr_list-update_addresses :
    (lib : Libbpf) (v4_name v6_name : String) (parse_cidr : ParseCidr) (addrs : List (List ℕ))
    (store : Store)
    → (set_cidr_list lib v4_name v6_name parse_cidr addrs store).0 ≡ true
    → set_cidr_list lib v4_name v6_name parse_cidr addrs store
      ≡ update_addresses lib v4_name v6_name (parsed parse_cidr addrs) store
unfolding set_cidr_list update_addresses
set_cidr_list-update_addresses lib v4_name v6_name parse_cidr [] store done = refl
set_cidr_list-update_addresses lib v4_name v6_name parse_cidr (addr ∷ addrs) store done =
    elim (Option-cases (cidr_to_bpf_map_key parse_cidr addr)) [
      | inl e ↦ absurd (cc (rw (e, set_cidr_list) at done))
      | inr (a, e) ↦
          set_cidr_list-some lib v4_name v6_name parse_cidr addr addrs a store e
          ∙ (and_then-agree (cidr_list_update lib a (family_name v4_name v6_name a) store)
                (λ st. set_cidr_list lib v4_name v6_name parse_cidr addrs st)
                (λ st. update_addresses lib v4_name v6_name (parsed parse_cidr addrs) st)
                (rw (e, set_cidr_list) at done)
                (set_cidr_list-update_addresses lib v4_name v6_name parse_cidr addrs)
              ∙ sym (
                  ap (λ l. update_addresses lib v4_name v6_name l store)
                    (parsed-some parse_cidr addr addrs a e)))
    ]

-- Some range cannot be parsed.
abbrev pub some_invalid : ParseCidr → List (List ℕ) → Bool
some_invalid parse_cidr [] = false
some_invalid parse_cidr (addr ∷ addrs) =
    not (is_some (parse_cidr addr)) || some_invalid parse_cidr addrs

or_right : (a b : Bool) → (a || b) ≡ true → a ≡ false → b ≡ true
or_right true b h g = absurd (cc g)
or_right false b h g = h

and_then-fails :
    (r : Bool × Store) (next : Store → Bool × Store)
    → ((store : Store) → (next store).0 ≡ false)
    → (and_then r next).0 ≡ false
and_then-fails (true, store) next h = h store
and_then-fails (false, store) next h = refl

-- A range that cannot be parsed makes the setter end with an error, whatever stands before and
-- after it and whatever the maps are.
pub set_cidr_list-some_invalid :
    (lib : Libbpf) (v4_name v6_name : String) (parse_cidr : ParseCidr) (addrs : List (List ℕ))
    (store : Store)
    → some_invalid parse_cidr addrs ≡ true
    → (set_cidr_list lib v4_name v6_name parse_cidr addrs store).0 ≡ false
unfolding set_cidr_list cidr_to_bpf_map_key
set_cidr_list-some_invalid lib v4_name v6_name parse_cidr [] store h = absurd (cc h)
set_cidr_list-some_invalid lib v4_name v6_name parse_cidr (addr ∷ addrs) store h =
    elim (Option-cases (parse_cidr addr)) [
      | inl e ↦ rw (e, set_cidr_list, cidr_to_bpf_map_key)
      | inr (n, e) ↦
          rw (e, set_cidr_list, cidr_to_bpf_map_key)
            (and_then-fails _ (λ st. set_cidr_list lib v4_name v6_name parse_cidr addrs st)
              (λ st.
                set_cidr_list-some_invalid lib v4_name v6_name parse_cidr addrs st
                  (or_right (not (is_some (parse_cidr addr))) _ h (rw e))))
    ]
