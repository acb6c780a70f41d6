-- ===== src/Audit/Network/Writes.antt =====
-- What the setters of pkg/audit/network/manager.go write, as one sequence of keys with the names of
-- their maps, and what of it a lookup in a map finds.
use text.Mathlib.Text.{◌==◌ as str_eq}
use bouheki.Prelude.{
  ℕ, ◌≡◌, refl, sym, ap, ap₂, ◌∙◌, List, [], ◌∷◌, ◌++◌, String, Bool, true, false, ◌&&◌, ◌||◌,
  and_false, if◌then◌else◌, map, take, Bool-cases, inl, inr,
}
use bouheki.Audit.Network.Trie.{any, matches}
use bouheki.Audit.Network.Setters.{Libbpf, Store, and_then, put, set_list, update_all}
use bouheki.Audit.Network.Groups.{if_done}
use bouheki.Audit.Network.Cidr.{
  IpAddress, ParseCidr, cidr_list_update, family_name, is_v6_address, set_cidr_list,
  update_addresses,
}
use bouheki.Audit.Network.Entries.{
  AreNames, hit, and_then-done, cidr_list_update-done, parsed, set_cidr_list-update_addresses,
}

abbrev pub Writes : Type 0
Writes = List (String × List ℕ)

abbrev pub puts : Writes → Store → Store
puts [] store = store
puts ((name, key) ∷ writes) store = puts writes (put name key store)

-- A key for the map that the test accepts.
abbrev pub written_to : String → (List ℕ → Bool) → String × List ℕ → Bool
written_to name p w = str_eq name w.0 && p w.1

abbrev pub keys_for : String → List (List ℕ) → Writes
keys_for name keys = map (λ key. (name, key)) keys

abbrev pub keys_of : String → String → List IpAddress → Writes
keys_of v4_name v6_name addrs = map (λ a. (family_name v4_name v6_name a, a.key)) addrs

or_assoc_middle : (a b c : Bool) → b || (a || c) ≡ (a || b) || c
or_assoc_middle true true c = refl
or_assoc_middle true false c = refl
or_assoc_middle false true c = refl
or_assoc_middle false false c = refl

pub any-put :
    (p : List ℕ → Bool) (name other : String) (key : List ℕ) (store : Store)
    → any p (put other key store name) ≡ (str_eq name other && p key) || any p (store name)
any-put p name other key store = elim (Bool-cases (str_eq name other)) [
  | inl same ↦ rw same
  | inr differ ↦ rw differ
]

-- A lookup finds what was written, or what was there.
pub any-puts :
    (p : List ℕ → Bool) (name : String) (writes : Writes) (store : Store)
    → any p (puts writes store name) ≡ any (written_to name p) writes || any p (store name)
any-puts p name [] store = refl
any-puts p name ((other, key) ∷ writes) store =
    any-puts p name writes (put other key store)
    ∙ (ap (λ b. any (written_to name p) writes || b) (any-put p name other key store)
        ∙ or_assoc_middle (str_eq name other && p key) (any (written_to name p) writes)
            (any p (store name)))

or_assoc : (a b c : Bool) → a || (b || c) ≡ (a || b) || c
or_assoc true b c = refl
or_assoc false b c = refl

pub any-append {ℓ} :
    {A : Type ℓ} → (p : A → Bool) (xs ys : List A) → any p (xs ++ ys) ≡ any p xs || any p ys
any-append p [] ys = refl
any-append p (x ∷ xs) ys =
    ap (λ b. p x || b) (any-append p xs ys) ∙ or_assoc (p x) (any p xs) (any p ys)

-- Keys for one map.
pub any-keys_for :
    (p : List ℕ → Bool) (name other : String) (keys : List (List ℕ))
    → any (written_to name p) (keys_for other keys) ≡ str_eq name other && any p keys
any-keys_for p name other [] = sym (and_false (str_eq name other))
any-keys_for p name other (key ∷ keys) =
    ap (λ b. (str_eq name other && p key) || b) (any-keys_for p name other keys)
    ∙ distribute (str_eq name other) (p key) (any p keys)
  where
    distribute : (a b c : Bool) → (a && b) || (a && c) ≡ a && (b || c)
    distribute true b c = refl
    distribute false b c = refl

-- Keys of addresses for one of two maps.
pub any-keys_of :
    (v4_name v6_name : String)
    → AreNames v4_name v6_name
    → (is_v6 : Bool) (size : ℕ) (key : List ℕ) (addrs : List IpAddress)
    → any
        (written_to (if is_v6 then v6_name else v4_name) (λ entry. matches key (take size entry)))
        (keys_of v4_name v6_name addrs)
      ≡ any (hit is_v6 size key) addrs
any-keys_of v4_name v6_name names is_v6 size key [] = refl
any-keys_of v4_name v6_name names is_v6 size key (a ∷ addrs) =
    ap₂ ◌||◌ (in_family is_v6) (any-keys_of v4_name v6_name names is_v6 size key addrs)
  where
    in_family :
        (is_v6 : Bool)
        → str_eq (if is_v6 then v6_name else v4_name) (family_name v4_name v6_name a)
            && matches key (take size a.key)
          ≡ hit is_v6 size key a
    in_family true = elim (Bool-cases (is_v6_address a)) [
      | inl v6 ↦ rw (v6, names.v6-v6)
      | inr v4 ↦ rw (v4, names.v6-v4)
    ]
    in_family false = elim (Bool-cases (is_v6_address a)) [
      | inl v6 ↦ rw (v6, names.v4-v6)
      | inr v4 ↦ rw (v4, names.v4-v4)
    ]

puts-append : (v w : Writes) (store : Store) → puts (v ++ w) store ≡ puts w (puts v store)
puts-append [] w store = refl
puts-append ((name, key) ∷ v) w store = puts-append v w (put name key store)

-- A setter that, without an error, has written the keys.
pub record Writing (set : Store → Bool × Store) (writes : Writes) : Type 0 where
  pub written : (store : Store) → (set store).0 ≡ true → (set store).1 ≡ puts writes store

pub Writing-update_all :
    (lib : Libbpf) (name : String) (keys : List (List ℕ))
    → Writing (update_all lib name keys) (keys_for name keys)
unfolding update_all
Writing-update_all lib name [] = record { written = λ store done. refl }
Writing-update_all lib name (key ∷ keys) = record {
  written = λ store done.
      let r = if_done (lib.update store name key) _ store done in
      ap (λ r. r.1) r.0 ∙ (Writing-update_all lib name keys).written (put name key store) r.1;
}

pub Writing-set_list :
    (lib : Libbpf) (name : String) (keys : List (List ℕ))
    → Writing (set_list lib name keys) (keys_for name keys)
unfolding set_list
Writing-set_list lib name keys = record {
  written = λ store done.
      let r = if_done (lib.get_map name) _ store done in
      ap (λ r. r.1) r.0 ∙ (Writing-update_all lib name keys).written store r.1;
}

pub Writing-update_addresses :
    (lib : Libbpf) (v4_name v6_name : String) (addrs : List IpAddress)
    → Writing (update_addresses lib v4_name v6_name addrs) (keys_of v4_name v6_name addrs)
unfolding update_addresses
Writing-update_addresses lib v4_name v6_name [] = record { written = λ store done. refl }
Writing-update_addresses lib v4_name v6_name (a ∷ addrs) = record {
  written = λ store done.
      let next = λ (st : Store). update_addresses lib v4_name v6_name addrs st in
      let e =
        cidr_list_update-done lib a (family_name v4_name v6_name a) store (
          and_then-done (cidr_list_update lib a (family_name v4_name v6_name a) store) next done) in
      let rest_done = sym (ap (λ r. (and_then r next).0) e) ∙ done in
      ap (λ r. (and_then r next).1) e
      ∙ (Writing-update_addresses lib v4_name v6_name addrs).written _ rest_done;
}

pub Writing-set_cidr_list :
    (lib : Libbpf) (v4_name v6_name : String) (parse_cidr : ParseCidr) (cidrs : List (List ℕ))
    → Writing
        (set_cidr_list lib v4_name v6_name parse_cidr cidrs)
        (keys_of v4_name v6_name (parsed parse_cidr cidrs))
Writing-set_cidr_list lib v4_name v6_name parse_cidr cidrs = record {
  written = λ store done.
      let same = set_cidr_list-update_addresses lib v4_name v6_name parse_cidr cidrs store done in
      ap (λ r. r.1) same
      ∙ (Writing-update_addresses lib v4_name v6_name (parsed parse_cidr cidrs)).written store
          (sym (ap (λ r. r.0) same) ∙ done);
}

-- One setter after the other.
pub Writing-and_then :
    (f g : Store → Bool × Store) (v w : Writes)
    → Writing f v
    → Writing g w
    → Writing (λ store. and_then (f store) g) (v ++ w)
Writing-and_then f g v w hf hg = record {
  written = λ store done. chained (f store) store done (hf.written store);
}
  where
    chained :
        (r : Bool × Store) (store : Store)
        → (and_then r g).0 ≡ true
        → (r.0 ≡ true → r.1 ≡ puts v store)
        → (and_then r g).1 ≡ puts (v ++ w) store
    chained (true, st) store done here =
        hg.written st done ∙ (ap (puts w) (here refl) ∙ sym (puts-append v w store))
    chained (false, st) store done here = absurd (cc done)
