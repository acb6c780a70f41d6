-- ===== src/Audit/Deployed/Lookups.antt =====
-- What lookups in the filled maps find, in terms of the configuration of pkg/audit/network.
use text.Mathlib.Text.{◌==◌ as str_eq}
use bouheki.Prelude.{
  ℕ, zero, suc, ◌%◌, ◌^◌, ◌<◌, ◌≡◌, refl, sym, ap, ap₂, ◌∙◌, List, [], ◌∷◌, String, Bool, true,
  false, ◌&&◌, ◌||◌, ◌==◌, ==_iff, map, take, length, replicate, arith, Bool-cases, inl, inr,
  &&_parts,
}
use bouheki.CType.{sizeof}
use bouheki.Buffer.{from_le_bytes, le_bytes}
use bouheki.Buffer.Bytes.{from_le_bytes-le_bytes, length-overlay}
use bouheki.Network.Structs.{
  allowed_command_key, allowed_gid_key, allowed_uid_key, denied_command_key, denied_gid_key,
  denied_uid_key,
}
use bouheki.Audit.Network.Ip.{bytes_eq}
use bouheki.Audit.Network.Trie.{any}
use bouheki.Audit.Network.Manager.{RestrictedNetworkConfig, byte_to_key, uint_to_key}
use bouheki.Audit.Network.Setters.{
  allowed_command_list_map_name, allowed_gid_list_map_name, allowed_uid_list_map_name,
  denied_command_list_map_name, denied_gid_list_map_name, denied_uid_list_map_name,
}
use bouheki.Audit.Network.Cidr.{
  IpAddress, ParseCidr, allowed_v4_cidr_list_map_name, allowed_v6_cidr_list_map_name,
  denied_v4_cidr_list_map_name, denied_v6_cidr_list_map_name, is_v6_address,
}
use bouheki.Audit.Network.Entries.{parsed}
use bouheki.Audit.Network.Covered.{any-map}
use bouheki.Audit.Network.Writes.{
  any-append, any-keys_for, any-puts, keys_for, keys_of, puts, written_to,
}
use bouheki.Audit.Deployed.Startup.{allowed_ranges, denied_ranges, process_writes}
use bouheki.Audit.Deployed.Filled.{filled, has_key, names_command, names_id, nothing}

any-cong {ℓ} :
    {A : Type ℓ} → (p q : A → Bool) (xs : List A) → ((x : A) → p x ≡ q x) → any p xs ≡ any q xs
any-cong p q [] h = refl
any-cong p q (x ∷ xs) h = ap₂ ◌||◌ (h x) (any-cong p q xs h)

-- Keys of addresses for other maps.
pub any-keys_of-other :
    (p : List ℕ → Bool) (name v4_name v6_name : String) (addrs : List IpAddress)
    → str_eq name v4_name ≡ false
    → str_eq name v6_name ≡ false
    → any (written_to name p) (keys_of v4_name v6_name addrs) ≡ false
any-keys_of-other p name v4_name v6_name [] h g = refl
any-keys_of-other p name v4_name v6_name (a ∷ addrs) h g = elim (Bool-cases (is_v6_address a)) [
  | inl v6 ↦ rw (v6, g, any-keys_of-other p name v4_name v6_name addrs h g)
  | inr v4 ↦ rw (v4, h, any-keys_of-other p name v4_name v6_name addrs h g)
]

bytes_eq_refl : (xs : List ℕ) → bytes_eq xs xs ≡ true
bytes_eq_refl [] = refl
bytes_eq_refl (x ∷ xs) = rw ((==_iff x x).1 refl) (bytes_eq_refl xs)

pub bytes_eq→eq : (xs ys : List ℕ) → bytes_eq xs ys ≡ true → xs ≡ ys
bytes_eq→eq [] [] h = refl
bytes_eq→eq [] (y ∷ ys) h = absurd (cc h)
bytes_eq→eq (x ∷ xs) [] h = absurd (cc h)
bytes_eq→eq (x ∷ xs) (y ∷ ys) h =
    let parts = &&_parts (x == y) (bytes_eq xs ys) h in
    ap₂ ◌∷◌ ((==_iff x y).0 parts.0) (bytes_eq→eq xs ys parts.1)

bytes_eq-le_bytes :
    (a b : ℕ) → a < 2 ^ 32 → b < 2 ^ 32 → bytes_eq (le_bytes 4 a) (le_bytes 4 b) ≡ (a == b)
bytes_eq-le_bytes a b ha hb = elim (Bool-cases (a == b)) [
  | inl same ↦ rw ((==_iff a b).0 same) (bytes_eq_refl (le_bytes 4 b) ∙ sym ((==_iff b b).1 refl))
  | inr differ ↦ elim (Bool-cases (bytes_eq (le_bytes 4 a) (le_bytes 4 b))) [
    | inl e ↦
        let numbers : a ≡ b =
          sym (from_le_bytes-le_bytes 4 a (omega arith))
          ∙ (ap from_le_bytes (bytes_eq→eq (le_bytes 4 a) (le_bytes 4 b) e)
              ∙ from_le_bytes-le_bytes 4 b (omega arith)) in
        absurd (cc (sym ((==_iff a b).1 numbers) ∙ differ))
    | inr ne ↦ ne ∙ sym differ
  ]
]

take-uint_to_key : (i : ℕ) → take 4 (uint_to_key i) ≡ le_bytes 4 (i % 2 ^ 32)
unfolding uint_to_key le_bytes
take-uint_to_key i = refl

take-all {ℓ} : {A : Type ℓ} → (n : ℕ) (xs : List A) → length xs ≡ n → take n xs ≡ xs
take-all zero [] h = refl
take-all (suc n) [] h = refl
take-all zero (x ∷ xs) h = absurd (omega arith)
take-all (suc n) (x ∷ xs) h = ap (◌∷◌ x) (take-all n xs (omega arith))

take-byte_to_key : (name : List ℕ) → take 16 (byte_to_key name) ≡ byte_to_key name
unfolding byte_to_key
take-byte_to_key name = take-all 16 (byte_to_key name) (length-overlay name (replicate 16 0))

pub or_false : (b : Bool) → b || false ≡ b
or_false true = refl
or_false false = refl

module _ (parse_cidr : ParseCidr) (c : RestrictedNetworkConfig) where
  -- A map that is no trie holds the keys of the lists of commands, users and groups alone.
  lookup-filled :
      (p : List ℕ → Bool) (name : String)
      → str_eq name allowed_v4_cidr_list_map_name ≡ false
      → str_eq name allowed_v6_cidr_list_map_name ≡ false
      → str_eq name denied_v4_cidr_list_map_name ≡ false
      → str_eq name denied_v6_cidr_list_map_name ≡ false
      → any p (filled parse_cidr c name) ≡ any (written_to name p) (process_writes c)
  lookup-filled p name a4 a6 d4 d6 =
      let before =
        any-puts p name (allowed_ranges parse_cidr c) nothing
        ∙ ap (λ b. b || false)
            (any-keys_of-other p name _ _ (parsed parse_cidr c.allow_cidrs) a4 a6) in
      let ranges =
        any-puts p name (denied_ranges parse_cidr c) (puts (allowed_ranges parse_cidr c) nothing)
        ∙ ap₂ ◌||◌ (any-keys_of-other p name _ _ (parsed parse_cidr c.deny_cidrs) d4 d6) before in
      any-puts p name (process_writes c) _
      ∙ (ap (λ b. any (written_to name p) (process_writes c) || b) ranges ∙ or_false _)

  -- Each list of the configuration goes into one map.
  pub any-process_writes :
      (p : List ℕ → Bool) (name : String)
      → any (written_to name p) (process_writes c)
        ≡ (str_eq name allowed_command_list_map_name
            && any (λ x. p (byte_to_key x)) c.allow_commands)
          || ((str_eq name denied_command_list_map_name
                && any (λ x. p (byte_to_key x)) c.deny_commands)
              || ((str_eq name allowed_uid_list_map_name
                    && any (λ x. p (uint_to_key x)) c.allow_uids)
                  || ((str_eq name denied_uid_list_map_name
                        && any (λ x. p (uint_to_key x)) c.deny_uids)
                      || ((str_eq name allowed_gid_list_map_name
                            && any (λ x. p (uint_to_key x)) c.allow_gids)
                          || (str_eq name denied_uid_list_map_name
                              && any (λ x. p (uint_to_key x)) c.deny_gids)))))
  any-process_writes p name =
      any-append (written_to name p) _ _
      ∙ ap₂ ◌||◌ (one byte_to_key _ c.allow_commands) (
          any-append (written_to name p) _ _
          ∙ ap₂ ◌||◌ (one byte_to_key _ c.deny_commands) (
              any-append (written_to name p) _ _
              ∙ ap₂ ◌||◌ (one uint_to_key _ c.allow_uids) (
                  any-append (written_to name p) _ _
                  ∙ ap₂ ◌||◌ (one uint_to_key _ c.deny_uids) (
                      any-append (written_to name p) _ _
                      ∙ ap₂ ◌||◌ (one uint_to_key _ c.allow_gids)
                          (one uint_to_key _ c.deny_gids)))))
    where
      one :
          {A : Type 0}
          → (f : A → List ℕ) (other : String) (xs : List A)
          → any (written_to name p) (keys_for other (map f xs))
            ≡ str_eq name other && any (λ x. p (f x)) xs
      one f other xs =
          any-keys_for p name other (map f xs) ∙ ap (λ b. str_eq name other && b) (any-map p f xs)

  module _ (comm : List ℕ) where
    one_command :
        (n : ℕ) (names : List (List ℕ))
        → n ≡ 16
        → any (λ x. bytes_eq comm (take n (byte_to_key x))) names ≡ names_command comm names
    one_command n names e =
        any-cong (λ x. bytes_eq comm (take n (byte_to_key x))) (λ x. bytes_eq comm (byte_to_key x))
          names (λ x. ap (bytes_eq comm) (rw e (take-byte_to_key x)))

    pub allowed_command_list-filled :
        has_key (filled parse_cidr c) allowed_command_list_map_name allowed_command_key comm
        ≡ names_command comm c.allow_commands
    unfolding sizeof
    allowed_command_list-filled =
        lookup-filled (λ e. bytes_eq comm (take 16 e)) allowed_command_list_map_name refl refl refl
          refl
        ∙ (any-process_writes (λ e. bytes_eq comm (take 16 e)) allowed_command_list_map_name
            ∙ (or_false _ ∙ one_command 16 c.allow_commands refl))

    pub denied_command_list-filled :
        has_key (filled parse_cidr c) denied_command_list_map_name denied_command_key comm
        ≡ names_command comm c.deny_commands
    unfolding sizeof
    denied_command_list-filled =
        lookup-filled (λ e. bytes_eq comm (take 16 e)) denied_command_list_map_name refl refl refl
          refl
        ∙ (any-process_writes (λ e. bytes_eq comm (take 16 e)) denied_command_list_map_name
            ∙ (or_false _ ∙ one_command 16 c.deny_commands refl))

  module _ (i : ℕ) (h : i < 2 ^ 32) where
    one_id :
        (ids : List ℕ)
        → any (λ x. bytes_eq (le_bytes 4 i) (take 4 (uint_to_key x))) ids ≡ names_id i ids
    one_id ids =
        any-cong (λ x. bytes_eq (le_bytes 4 i) (take 4 (uint_to_key x))) (λ x. i == x % 2 ^ 32) ids
          (λ x. rw (take-uint_to_key x) (bytes_eq-le_bytes i (x % 2 ^ 32) h (omega arith)))

    pub allowed_uid_list-filled :
        has_key (filled parse_cidr c) allowed_uid_list_map_name allowed_uid_key (le_bytes 4 i)
        ≡ names_id i c.allow_uids
    unfolding sizeof
    allowed_uid_list-filled =
        lookup-filled (λ e. bytes_eq (le_bytes 4 i) (take 4 e)) allowed_uid_list_map_name refl refl
          refl refl
        ∙ (any-process_writes (λ e. bytes_eq (le_bytes 4 i) (take 4 e)) allowed_uid_list_map_name
            ∙ (or_false _ ∙ one_id c.allow_uids))

    -- The denied groups stand among the denied users.
    pub denied_uid_list-filled :
        has_key (filled parse_cidr c) denied_uid_list_map_name denied_uid_key (le_bytes 4 i)
        ≡ names_id i c.deny_uids || names_id i c.deny_gids
    unfolding sizeof
    denied_uid_list-filled =
        lookup-filled (λ e. bytes_eq (le_bytes 4 i) (take 4 e)) denied_uid_list_map_name refl refl
          refl refl
        ∙ (any-process_writes (λ e. bytes_eq (le_bytes 4 i) (take 4 e)) denied_uid_list_map_name
            ∙ ap₂ ◌||◌ (one_id c.deny_uids) (one_id c.deny_gids))

    pub allowed_gid_list-filled :
        has_key (filled parse_cidr c) allowed_gid_list_map_name allowed_gid_key (le_bytes 4 i)
        ≡ names_id i c.allow_gids
    unfolding sizeof
    allowed_gid_list-filled =
        lookup-filled (λ e. bytes_eq (le_bytes 4 i) (take 4 e)) allowed_gid_list_map_name refl refl
          refl refl
        ∙ (any-process_writes (λ e. bytes_eq (le_bytes 4 i) (take 4 e)) allowed_gid_list_map_name
            ∙ (or_false _ ∙ one_id c.allow_gids))

    pub denied_gid_list-filled :
        has_key (filled parse_cidr c) denied_gid_list_map_name denied_gid_key (le_bytes 4 i) ≡ false
    unfolding sizeof
    denied_gid_list-filled =
        lookup-filled (λ e. bytes_eq (le_bytes 4 i) (take 4 e)) denied_gid_list_map_name refl refl
          refl refl
        ∙ any-process_writes (λ e. bytes_eq (le_bytes 4 i) (take 4 e)) denied_gid_list_map_name
