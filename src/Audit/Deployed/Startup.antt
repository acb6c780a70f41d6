-- ===== src/Audit/Deployed/Startup.antt =====
-- pkg/audit/network/manager.go: what the maps of the network program hold after SetConfigToMap.
use bouheki.Prelude.{
  ℕ, ◌≡◌, refl, sym, ap, ◌∙◌, List, [], ◌∷◌, ◌++◌, Bool, true, false, some, if◌then◌else◌, map, ◌⊎◌,
  inl, inr, Bool-cases,
}
use bouheki.Audit.Network.Manager.{
  RestrictedNetworkConfig, byte_to_key, set_config_map, uint_to_key,
}
use bouheki.Audit.Network.Setters.{
  Libbpf, Store, allowed_command_list_map_name, allowed_gid_list_map_name,
  allowed_uid_list_map_name, denied_command_list_map_name, denied_uid_list_map_name,
  set_allowed_command_list, set_allowed_gid_list, set_allowed_uid_list, set_denied_command_list,
  set_denied_gid_list, set_denied_uid_list, set_process_lists,
}
use bouheki.Audit.Network.Cidr.{
  ParseCidr, allowed_v4_cidr_list_map_name, allowed_v6_cidr_list_map_name,
  denied_v4_cidr_list_map_name, denied_v6_cidr_list_map_name, set_allowed_cidr_list,
  set_denied_cidr_list,
}
use bouheki.Audit.Network.Entries.{parsed}
use bouheki.Audit.Network.Writes.{
  Writes, Writing, Writing-and_then, Writing-set_cidr_list, Writing-set_list, keys_for, keys_of,
  puts,
}
use bouheki.Audit.Dns.{Client, Result, failed, returned}
use bouheki.Audit.Dns.Update.{
  State, init_domain_list, init_domains, set_config_to_map, setter, then_do, update_config_map,
}

-- The keys for the lists of commands, users and groups.
abbrev pub process_writes : RestrictedNetworkConfig → Writes
process_writes c =
    keys_for allowed_command_list_map_name (map byte_to_key c.allow_commands)
    ++ (keys_for denied_command_list_map_name (map byte_to_key c.deny_commands)
        ++ (keys_for allowed_uid_list_map_name (map uint_to_key c.allow_uids)
            ++ (keys_for denied_uid_list_map_name (map uint_to_key c.deny_uids)
                ++ (keys_for allowed_gid_list_map_name (map uint_to_key c.allow_gids)
                    ++ keys_for denied_uid_list_map_name (map uint_to_key c.deny_gids)))))

abbrev pub allowed_ranges : ParseCidr → RestrictedNetworkConfig → Writes
allowed_ranges parse_cidr c =
    keys_of allowed_v4_cidr_list_map_name allowed_v6_cidr_list_map_name
      (parsed parse_cidr c.allow_cidrs)

abbrev pub denied_ranges : ParseCidr → RestrictedNetworkConfig → Writes
denied_ranges parse_cidr c =
    keys_of denied_v4_cidr_list_map_name denied_v6_cidr_list_map_name
      (parsed parse_cidr c.deny_cidrs)

Writing-set_process_lists :
    (lib : Libbpf) (c : RestrictedNetworkConfig)
    → Writing (set_process_lists lib c) (process_writes c)
unfolding set_process_lists set_allowed_command_list set_denied_command_list set_allowed_uid_list
    set_denied_uid_list set_allowed_gid_list set_denied_gid_list
Writing-set_process_lists lib c = Writing-and_then _ _ _ _ (Writing-set_list lib _ _) (
    Writing-and_then _ _ _ _ (Writing-set_list lib _ _) (
      Writing-and_then _ _ _ _ (Writing-set_list lib _ _) (
        Writing-and_then _ _ _ _ (Writing-set_list lib _ _)
          (Writing-and_then _ _ _ _ (Writing-set_list lib _ _) (Writing-set_list lib _ _)))))

-- The DNS proxy takes care of the domains, or there are none.
abbrev pub NoDomains : RestrictedNetworkConfig → Bool → Type 0
NoDomains c dns_proxy_enable =
    (dns_proxy_enable ≡ true) ⊎ (c.deny_domains ≡ []) × (c.allow_domains ≡ [])

module _ {W : Type 0} where
  -- Without an error, the next step ran.
  abbrev pub Done : Result (Unit {0}) × State W → Type 0
  Done r = r.0 ≡ returned tt

  abbrev with_store : State W → Store → State W
  with_store s store = record { entry = s.entry; store = store; world = s.world }

  moved : {r r' : Result (Unit {0}) × State W} → r ≡ r' → Done r → Done r'
  moved e done = sym (ap (λ r. r.0) e) ∙ done

  setter-Done :
      (set : Store → Bool × Store) (writes : Writes) (s : State W)
      (next : State W → Result (Unit {0}) × State W)
      → Writing set writes
      → Done (then_do (setter set s) next)
      → then_do (setter set s) next ≡ next (with_store s (puts writes s.store))
  setter-Done set writes s next w done = stepped (set s.store) done (w.written s.store)
    where
      stepped :
          (r : Bool × Store)
          → Done (then_do (if r.0 then returned tt else failed, with_store s r.1) next)
          → (r.0 ≡ true → r.1 ≡ puts writes s.store)
          → then_do (if r.0 then returned tt else failed, with_store s r.1) next
            ≡ next (with_store s (puts writes s.store))
      stepped (true, store) done e = ap (λ st. next (with_store s st)) (e refl)
      stepped (false, store) done e = absurd (cc done)

  setter-last :
      (set : Store → Bool × Store) (writes : Writes) (s : State W)
      → Writing set writes
      → Done (setter set s)
      → (setter set s).1 ≡ with_store s (puts writes s.store)
  setter-last set writes s w done = stepped (set s.store) done (w.written s.store)
    where
      stepped :
          (r : Bool × Store)
          → Done (if r.0 then returned tt else failed, with_store s r.1)
          → (r.0 ≡ true → r.1 ≡ puts writes s.store)
          → with_store s r.1 ≡ with_store s (puts writes s.store)
      stepped (true, store) done e = ap (with_store s) (e refl)
      stepped (false, store) done e = absurd (cc done)

  abbrev with_entry : State W → List ℕ → List ℕ → State W
  with_entry s key value = record { entry = some (key, value); store = s.store; world = s.world }

  module _ (lib : Libbpf) (client : Client W) (servers : List (List ℕ)) (parse_cidr : ParseCidr)
      (behind : List ℕ) (c : RestrictedNetworkConfig) where
    update_config_map-Done :
        (s : State W) (next : State W → Result (Unit {0}) × State W)
        → Done (then_do (update_config_map lib client servers c behind s) next)
        → then_do (update_config_map lib client servers c behind s) next
          ≡ next (with_entry s (0 ∷ behind) (set_config_map c))
    unfolding update_config_map
    update_config_map-Done s next done =
        elim (Bool-cases (lib.get_map "network_bouheki_config_map")) [
          | inl found ↦
              elim (Bool-cases (lib.update s.store "network_bouheki_config_map" (0 ∷ behind))) [
                | inl updated ↦ rw (found, updated)
                | inr refused ↦ absurd (cc (rw (found, refused) at done))
              ]
          | inr missing ↦ absurd (cc (rw missing at done))
        ]

    init_nothing :
        (dns_proxy_enable : Bool) (s : State W)
        → NoDomains c dns_proxy_enable
        → (if dns_proxy_enable then (returned tt, s) else init_domain_list lib client servers c s)
          ≡ (returned tt, s)
    unfolding init_domain_list init_domains
    init_nothing true s off = refl
    init_nothing false s (inl e) = absurd (cc e)
    init_nothing false s (inr (denied, allowed)) = rw (denied, allowed)

    -- Without an error, the maps hold the configuration and the keys of all lists, after what they
    -- held before.
    pub set_config_to_map-written :
        (dns_proxy_enable : Bool) (s : State W)
        → NoDomains c dns_proxy_enable
        → Done (set_config_to_map lib client servers parse_cidr behind c dns_proxy_enable s)
        → (set_config_to_map lib client servers parse_cidr behind c dns_proxy_enable s).1 ≡ record {
          entry = some (0 ∷ behind, set_config_map c);
          store =
              puts
                (process_writes c)
                (puts (denied_ranges parse_cidr c) (puts (allowed_ranges parse_cidr c) s.store));
          world = s.world;
        }
    unfolding set_config_to_map set_allowed_cidr_list set_denied_cidr_list
    set_config_to_map-written dns_proxy_enable s off done =
        let last = λ (s : State W). setter (set_process_lists lib c) s in
        let domains = λ (s : State W).
          then_do
            (if dns_proxy_enable then (returned tt, s) else init_domain_list lib client servers c s)
            last in
        let denied =
          λ (s : State W). then_do (setter (set_denied_cidr_list lib parse_cidr c) s) domains in
        let allowed =
          λ (s : State W). then_do (setter (set_allowed_cidr_list lib parse_cidr c) s) denied in
        let s1 = with_entry s (0 ∷ behind) (set_config_map c) in
        let s2 = with_store s1 (puts (allowed_ranges parse_cidr c) s.store) in
        let s3 = with_store s1 (puts (denied_ranges parse_cidr c) s2.store) in
        let e1 = update_config_map-Done s allowed done in
        let e2 =
          setter-Done (set_allowed_cidr_list lib parse_cidr c) (allowed_ranges parse_cidr c) s1
            denied (Writing-set_cidr_list lib _ _ parse_cidr c.allow_cidrs) (moved e1 done) in
        let e3 =
          setter-Done (set_denied_cidr_list lib parse_cidr c) (denied_ranges parse_cidr c) s2
            domains (Writing-set_cidr_list lib _ _ parse_cidr c.deny_cidrs)
            (moved (e1 ∙ e2) done) in
        let e4 : domains s3 ≡ last s3 =
          ap (λ r. then_do r last) (init_nothing dns_proxy_enable s3 off) in
        let e = e1 ∙ (e2 ∙ (e3 ∙ e4)) in
        ap (λ r. r.1) e
        ∙ setter-last (set_process_lists lib c) (process_writes c) s3
            (Writing-set_process_lists lib c) (moved e done)
