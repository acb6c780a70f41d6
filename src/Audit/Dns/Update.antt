-- ===== src/Audit/Dns/Update.antt =====
-- pkg/audit/network/fqdn.go and manager.go: what the manager does with the answers for its domains,
-- at the start (initDomainList) and in each round of the resolving goroutines; and SetConfigToMap,
-- which fills all maps.
use bouheki.Prelude.{ℕ, List, [], ◌∷◌, String, Bool, true, false, Option, some, if◌then◌else◌, ◌==◌}
use bouheki.Audit.Network.Manager.{RestrictedNetworkConfig, set_config_map}
use bouheki.Audit.Network.Setters.{Libbpf, Store, set_process_lists}
use bouheki.Audit.Network.Cidr.{
  ParseCidr, set_allowed_cidr_list, set_denied_cidr_list, update_allowed_fqdn_list,
  update_denied_fqdn_list,
}
use bouheki.Audit.Dns.{
  Client, DnsAnswer, Result, failed, panicked, resolve, returned, type_a, type_aaaa,
}

-- The entry of the configuration map with its key, the keys of the other maps, and the world.
pub record State (W : Type 0) : Type 0 where
  pub entry : Option (List ℕ × List ℕ)
  pub store : Store
  pub world : W

abbrev pub Update : Type 0
Update = List (List ℕ) → Store → Bool × Store

abbrev pub then_do :
    {W : Type 0}
    → Result (Unit {0}) × State W
    → (State W → Result (Unit {0}) × State W)
    → Result (Unit {0}) × State W
then_do (returned u, s) next = next s
then_do (failed, s) next = (failed, s)
then_do (panicked, s) next = (panicked, s)

-- A setter that writes keys only.
abbrev pub setter : {W : Type 0} → (Store → Bool × Store) → State W → Result (Unit {0}) × State W
setter set s =
    let written = set s.store in
    (
      if written.0 then returned tt else failed,
      record { entry = s.entry; store = written.1; world = s.world },
    )

module _ {W : Type 0} (lib : Libbpf) (client : Client W) (servers : List (List ℕ)) where
  -- ResolveAddressv4 and ResolveAddressv6 pass on what the resolver returns.
  abbrev pub resolve_address_v4 : List ℕ → W → Result DnsAnswer × W
  resolve_address_v4 domain w = resolve client servers domain type_a w

  abbrev pub resolve_address_v6 : List ℕ → W → Result DnsAnswer × W
  resolve_address_v6 domain w = resolve client servers domain type_aaaa w

  -- The time to live, and whether there is no error, given what was resolved.
  abbrev pub refresh : Update → Result DnsAnswer × W → State W → Result (ℕ × Bool) × State W
  refresh update (returned answer, w) s =
      let updated = update answer.addresses s.store in
      (
        returned (if updated.0 then answer.ttl else 5, true),
        record { entry = s.entry; store = updated.1; world = w },
      )
  refresh update (failed, w) s =
      (returned (5, true), record { entry = s.entry; store = s.store; world = w })
  refresh update (panicked, w) s =
      (panicked, record { entry = s.entry; store = s.store; world = w })

  abbrev pub resolve_and_update : Update → List ℕ → ℕ → State W → Result (ℕ × Bool) × State W
  resolve_and_update update domain record_type s =
      if record_type == type_a
      then refresh update (resolve_address_v4 domain s.world) s
      else if record_type == type_aaaa
      then refresh update (resolve_address_v6 domain s.world) s
      else (returned (5, false), s)

  unfoldable pub resolve_and_update_allowed_fqdn_list :
      List ℕ → ℕ → State W → Result (ℕ × Bool) × State W
  resolve_and_update_allowed_fqdn_list = resolve_and_update (update_allowed_fqdn_list lib)

  unfoldable pub resolve_and_update_denied_fqdn_list :
      List ℕ → ℕ → State W → Result (ℕ × Bool) × State W
  resolve_and_update_denied_fqdn_list = resolve_and_update (update_denied_fqdn_list lib)

  -- The half of a round of initDomainList for one type of records: whether to go on with the round.
  abbrev pub init_records : Update → Result DnsAnswer × W → State W → Result Bool × State W
  init_records update (returned answer, w) s =
      let updated = update answer.addresses s.store in
      (
        if updated.0 then returned true else failed,
        record { entry = s.entry; store = updated.1; world = w },
      )
  init_records update (failed, w) s =
      (returned false, record { entry = s.entry; store = s.store; world = w })
  init_records update (panicked, w) s =
      (panicked, record { entry = s.entry; store = s.store; world = w })

  -- `continue`, or the AAAA records.
  abbrev pub init_rest : Update → List ℕ → Result Bool × State W → Result (Unit {0}) × State W
  init_rest update domain (returned false, s) = (returned tt, s)
  init_rest update domain (returned true, s) =
      let second = init_records update (resolve_address_v6 domain s.world) s in
      (elim second.0 [ returned b ↦ returned tt | failed ↦ failed | panicked ↦ panicked ], second.1)
  init_rest update domain (failed, s) = (failed, s)
  init_rest update domain (panicked, s) = (panicked, s)

  unfoldable pub init_domains : Update → List (List ℕ) → State W → Result (Unit {0}) × State W
  init_domains update [] s = (returned tt, s)
  init_domains update (domain ∷ domains) s =
      then_do (init_rest update domain (init_records update (resolve_address_v4 domain s.world) s))
        (λ s'. init_domains update domains s')

  unfoldable pub init_domain_list : RestrictedNetworkConfig → State W → Result (Unit {0}) × State W
  init_domain_list c s =
      then_do (init_domains (update_denied_fqdn_list lib) c.deny_domains s)
        (λ s'. init_domains (update_allowed_fqdn_list lib) c.allow_domains s')

  abbrev pub restrict_network_config_map_name : String
  restrict_network_config_map_name = "network_bouheki_config_map"

  -- setConfigMap, with its value; the key is a variable of one byte, 0, of which the update takes as
  -- many bytes as the keys of the map have: `behind` are those that follow it in memory.
  unfoldable pub update_config_map :
      RestrictedNetworkConfig → List ℕ → State W → Result (Unit {0}) × State W
  update_config_map c behind s =
      if lib.get_map restrict_network_config_map_name
      then if lib.update s.store restrict_network_config_map_name (0 ∷ behind)
        then (
          returned tt,
          record { entry = some (0 ∷ behind, set_config_map c); store = s.store; world = s.world },
        )
        else (failed, s)
      else (failed, s)

  module _ (parse_cidr : ParseCidr) (behind : List ℕ) where
    -- SetConfigToMap; whether the DNS proxy is enabled is a setting of its own.
    unfoldable pub set_config_to_map :
        RestrictedNetworkConfig → Bool → State W → Result (Unit {0}) × State W
    set_config_to_map c dns_proxy_enable s = then_do (update_config_map c behind s) (λ s.
        then_do (setter (set_allowed_cidr_list lib parse_cidr c) s) (λ s.
          then_do (setter (set_denied_cidr_list lib parse_cidr c) s) (λ s.
            then_do (if dns_proxy_enable then (returned tt, s) else init_domain_list c s)
              (λ s. setter (set_process_lists lib c) s))))
