-- ===== src/Audit/Deployed/Verdict.antt =====
-- The verdict of pkg/bpf/c/restricted-network.bpf.c on the filled maps, in terms of the configuration of
-- pkg/audit/network.
use bouheki.Prelude.{
  List, Option, none, refl, ℕ, ◌≡◌, ap, ◌∙◌, [], ◌∷◌, Bool, true, false, ◌&&◌, ◌||◌, not, some,
  if◌then◌else◌, ◌==◌, length, arith, pos, neg,
}
use bouheki.Buffer.{le_bytes}
use bouheki.Kernel.{Kernel, IsKernel}
use bouheki.Common.{task_comm_len}
use bouheki.Common.Container.{is_container}
use bouheki.Network.Structs.{af_inet, af_inet6}
use bouheki.Network.Report.{is_destination_port_zero_v4, is_destination_port_zero_v6}
use bouheki.Network.Connect.{
  Config, Maps, current_gid, current_uid, has_allow_command, has_allow_uid, sa_family,
}
use bouheki.Network.Key.{length-destination6}
use bouheki.Network.Policy.{listed_cidr, verdict}
use bouheki.Audit.Network.Ip.{AreBytes, bytes_eq}
use bouheki.Audit.Network.Trie.{IsTrie, Trie, any}
use bouheki.Audit.Network.Manager.{
  RestrictedNetworkConfig, is_only_container, is_restricted_mode, set_config_map, uint32_len,
}
use bouheki.Audit.Network.Cidr.{
  ParseCidr, allowed_v4_cidr_list_map_name, allowed_v6_cidr_list_map_name,
  denied_v4_cidr_list_map_name, denied_v6_cidr_list_map_name,
}
use bouheki.Audit.Network.Ranges.{bytes}
use bouheki.Audit.Network.Written.{loaded-set_config_map}
use bouheki.Audit.Network.Covered.{AreRanges, covers, search}
use bouheki.Audit.Deployed.Filled.{config_at, filled, maps, names_command, names_id}
use bouheki.Audit.Deployed.Lookups.{
  allowed_command_list-filled, allowed_gid_list-filled, allowed_uid_list-filled,
  denied_command_list-filled, denied_gid_list-filled, denied_uid_list-filled,
}
use bouheki.Audit.Deployed.Searches.{allowed_search, denied_search, destination, listed_cidr-search}

-- Whether the program finds the configuration, given the bytes in memory behind the variable of one
-- byte that the manager passes as its key: the program looks it up with the four bytes of 0.
abbrev pub finds_config : List ℕ → Bool
finds_config behind = bytes_eq behind (0 ∷ 0 ∷ 0 ∷ [])

-- Passed over: not an internet address, or port 0, or not a container where only those are
-- restricted, which is not so without a configuration.
abbrev pub exempt : Kernel → RestrictedNetworkConfig → Bool → ℕ → Bool
exempt k c found address =
    (not (sa_family k address == af_inet) && not (sa_family k address == af_inet6))
    || (((sa_family k address == af_inet6 && is_destination_port_zero_v6 k address)
          || (sa_family k address == af_inet && is_destination_port_zero_v4 k address))
        || ((found && is_only_container c) && not (is_container k)))

-- The number of allowed ones that the program knows, 0 without a configuration.
abbrev pub known : Bool → ℕ → ℕ
known found n = if found then n else 0

-- The rules of the configuration. Denied groups count as denied users, and lists of allowed users
-- and commands that the program does not know of restrict nobody else.
abbrev pub permitted : Kernel → ParseCidr → RestrictedNetworkConfig → Bool → ℕ → Bool
permitted k parse_cidr c found address =
    let comm = k.current_comm task_comm_len in
    let uid = current_uid k in
    let gid = current_gid k in
    let to_range = any (covers parse_cidr (destination k address)) in
    (if to_range c.deny_cidrs
      then names_command comm c.allow_commands
        || (names_id uid c.allow_uids || names_id gid c.allow_gids)
      else to_range c.allow_cidrs)
    && ((not (names_id uid c.deny_uids || names_id uid c.deny_gids)
          && (names_id uid c.allow_uids || known found (uint32_len c.allow_uids) == 0))
        && (not (names_command comm c.deny_commands)
            && (names_command comm c.allow_commands
                || known found (uint32_len c.allow_commands) == 0)))

length-destination :
    (k : Kernel)
    → IsKernel k
    → (address : ℕ) (is_v6 : Bool) → (sa_family k address == af_inet6) ≡ is_v6
    → length (destination k address) ≡ bytes is_v6
length-destination k s address true e = rw e (length-destination6 k s address)
length-destination k s address false e = rw e (s.length-load _ 4)

abbrev pub loaded_config : RestrictedNetworkConfig → Config
loaded_config c = record {
  mode = if is_restricted_mode c then 1 else 0;
  target = if is_only_container c then 1 else 0;
  has_allow_command = uint32_len c.allow_commands;
  has_allow_uid = uint32_len c.allow_uids;
}

-- The configuration that the program loads.
pub config_at-set_config_map :
    (c : RestrictedNetworkConfig) (behind : List ℕ)
    → config_at (some (0 ∷ behind, set_config_map c)) 0
      ≡ (if finds_config behind then some (loaded_config c) else none)
unfolding le_bytes
config_at-set_config_map c behind =
    ap (λ config. if finds_config behind then some config else none) (loaded-set_config_map c)

-- The verdict as a function of what the lookups find.
abbrev verdict_of : Bool → Bool → Bool → Bool → Bool → Bool → Bool → Bool → ℕ → ℕ → Bool
verdict_of denied_cidr allowed_cidr command uid gid denied_uid denied_gid denied_command commands
      uids =
    (if denied_cidr then command || (uid || gid) else allowed_cidr)
    && ((not denied_uid && (uid || uids == 0))
        && (not denied_gid && (not denied_command && (command || commands == 0))))

verdict_of-cong :
    {a a' b b' d d' e e' f f' g g' h h' i i' : Bool} {m m' n n' : ℕ}
    → m ≡ m'
    → n ≡ n'
    → a ≡ a'
    → b ≡ b'
    → d ≡ d'
    → e ≡ e'
    → f ≡ f'
    → g ≡ g'
    → h ≡ h'
    → i ≡ i'
    → verdict_of a b d e f g h i m n ≡ verdict_of a' b' d' e' f' g' h' i' m' n'
verdict_of-cong em en ea eb ed ee ef eg eh ei = rw (em, en, ea, eb, ed, ee, ef, eg, eh, ei)

-- What the program counts without a configuration is 0.
counts-known :
    (count : Option Config → ℕ)
    → count none ≡ 0
    → (found : Bool) (c : Config)
    → count (if found then some c else none) ≡ known found (count (some c))
counts-known count e true c = refl
counts-known count e false c = e

module _ (k : Kernel) (s : IsKernel k) (t : Trie) (trie : IsTrie t) (parse_cidr : ParseCidr)
    (c : RestrictedNetworkConfig) (behind : List ℕ) where
  abbrev pub deployed : Maps
  deployed = maps t (some (0 ∷ behind, set_config_map c)) (filled parse_cidr c)

  module _ (address : ℕ) (hd : AreBytes (destination k address)) where
    denied_listed :
        AreRanges parse_cidr c.deny_cidrs
        → listed_cidr k deployed.denied_v4_cidr_list deployed.denied_v6_cidr_list address
          ≡ any (covers parse_cidr (destination k address)) c.deny_cidrs
    denied_listed ranges = listed_cidr-search k t _ _ address _ (λ is_v6 e. either is_v6 e)
      where
        either :
            (is_v6 : Bool)
            → (sa_family k address == af_inet6) ≡ is_v6
            → search t is_v6
                (if is_v6
                  then filled parse_cidr c denied_v6_cidr_list_map_name
                  else filled parse_cidr c denied_v4_cidr_list_map_name)
                (destination k address)
              ≡ any (covers parse_cidr (destination k address)) c.deny_cidrs
        either true e =
            denied_search t trie parse_cidr c true _ (length-destination k s address true e) hd
              ranges
        either false e =
            denied_search t trie parse_cidr c false _ (length-destination k s address false e) hd
              ranges

    allowed_listed :
        AreRanges parse_cidr c.allow_cidrs
        → listed_cidr k deployed.allowed_v4_cidr_list deployed.allowed_v6_cidr_list address
          ≡ any (covers parse_cidr (destination k address)) c.allow_cidrs
    allowed_listed ranges = listed_cidr-search k t _ _ address _ (λ is_v6 e. either is_v6 e)
      where
        either :
            (is_v6 : Bool)
            → (sa_family k address == af_inet6) ≡ is_v6
            → search t is_v6
                (if is_v6
                  then filled parse_cidr c allowed_v6_cidr_list_map_name
                  else filled parse_cidr c allowed_v4_cidr_list_map_name)
                (destination k address)
              ≡ any (covers parse_cidr (destination k address)) c.allow_cidrs
        either true e =
            allowed_search t trie parse_cidr c true _ (length-destination k s address true e) hd
              ranges
        either false e =
            allowed_search t trie parse_cidr c false _ (length-destination k s address false e) hd
              ranges

    pub verdict-deployed :
        AreRanges parse_cidr c.allow_cidrs
        → AreRanges parse_cidr c.deny_cidrs
        → verdict k deployed address
          ≡ (if permitted k parse_cidr c (finds_config behind) address then pos 0 else neg k.eperm)
    verdict-deployed allowed denied =
        let comm = k.current_comm task_comm_len in
        let uid = current_uid k in
        let gid = current_gid k in
        ap
          (λ config.
            if verdict_of
              (listed_cidr k deployed.denied_v4_cidr_list deployed.denied_v6_cidr_list address)
              (listed_cidr k deployed.allowed_v4_cidr_list deployed.allowed_v6_cidr_list address)
              (deployed.allowed_command_list comm) (deployed.allowed_uid_list uid)
              (deployed.allowed_gid_list gid) (deployed.denied_uid_list uid)
              (deployed.denied_gid_list gid) (deployed.denied_command_list comm)
              (has_allow_command config) (has_allow_uid config)
            then pos 0
            else neg k.eperm)
          (config_at-set_config_map c behind)
        ∙ ap (λ b. if b then pos 0 else neg k.eperm)
            (verdict_of-cong
              (counts-known (λ config. has_allow_command config) refl (finds_config behind)
                (loaded_config c))
              (counts-known (λ config. has_allow_uid config) refl (finds_config behind)
                (loaded_config c))
              (denied_listed denied) (allowed_listed allowed)
              (allowed_command_list-filled parse_cidr c comm)
              (allowed_uid_list-filled parse_cidr c uid (omega arith))
              (allowed_gid_list-filled parse_cidr c gid (omega arith))
              (denied_uid_list-filled parse_cidr c uid (omega arith))
              (denied_gid_list-filled parse_cidr c gid (omega arith))
              (denied_command_list-filled parse_cidr c comm))
