-- ===== src/Network/Policy.antt =====
-- The policy that pkg/bpf/c/restricted-network.bpf.c implements, as one formula, and its
-- consequences for the lists.
use bouheki.Prelude.{
  ℕ, ◌<◌, ◌≡◌, refl, ◌∙◌, ap, List, Option, Bool, false, true, ◌&&◌, ◌||◌, not, arith,
  if◌then◌else◌, ◌==◌, is_zero, is_zero-neg, ℤ, pos, neg, inl, inr, ◌⊎◌, ◌++◌,
}
use bouheki.Kernel.{Kernel, IsKernel}
use bouheki.Common.{task_comm_len}
use bouheki.Common.Container.{is_container}
use bouheki.Network.Structs.{af_inet, af_inet6}
use bouheki.Network.Report.{is_destination_port_zero_v4, is_destination_port_zero_v6}
use bouheki.Buffer.{le_bytes}
use bouheki.Network.Key.{destination4, destination6, trie_key_ipv4, trie_key_ipv6}
use bouheki.Network.Connect.{
  Maps, Config, can_access, current_uid, current_gid, has_allow_command, has_allow_uid,
  in_cidr_list, only_container, sa_family, trie_key,
}

-- 0 or the error.
abbrev grant : ℤ → Bool → ℤ
grant e b = if b then pos 0 else e

revoke_lem : (e : ℤ) (d b : Bool) → (if d then e else grant e b) ≡ grant e (not d && b)
revoke_lem e true b = refl
revoke_lem e false b = refl

extend_lem : (e : ℤ) (d b : Bool) → (if d then pos 0 else grant e b) ≡ grant e (d || b)
extend_lem e true b = refl
extend_lem e false b = refl

is_zero-grant : (e : ℤ) (b : Bool) → is_zero e ≡ false → is_zero (grant e b) ≡ b
is_zero-grant e true h = refl
is_zero-grant e false h = h

or_false : (b : Bool) → b || false ≡ b
or_false b = ground arith

-- Whether a pair of tries has the destination, under the key of its whole address.
abbrev pub listed_cidr : Kernel → (List ℕ → Bool) → (List ℕ → Bool) → ℕ → Bool
listed_cidr k v4_list v6_list address =
    if sa_family k address == af_inet6
    then v6_list (le_bytes 4 128 ++ destination6 k address)
    else v4_list (le_bytes 4 32 ++ destination4 k address)

-- The destination: in a denied range only a process that is allowed by name, user or group may
-- connect, elsewhere the range has to be allowed.
abbrev pub destination_ok : Kernel → Maps → Bool → Bool → List ℕ → Bool
destination_ok k m is_ipv4 is_ipv6 key =
    if in_cidr_list m.denied_v4_cidr_list m.denied_v6_cidr_list is_ipv4 is_ipv6 key
    then m.allowed_command_list (k.current_comm task_comm_len)
      || (m.allowed_uid_list (current_uid k) || m.allowed_gid_list (current_gid k))
    else in_cidr_list m.allowed_v4_cidr_list m.allowed_v6_cidr_list is_ipv4 is_ipv6 key

-- The process: neither its name nor its user nor its group is denied, and its name and its user
-- are allowed where the configuration counts allowed ones.
abbrev pub process_ok : Kernel → Maps → Option Config → Bool
process_ok k m c =
    (not (m.denied_uid_list (current_uid k))
      && (m.allowed_uid_list (current_uid k) || has_allow_uid c == 0))
    && (not (m.denied_gid_list (current_gid k))
        && (not (m.denied_command_list (k.current_comm task_comm_len))
            && (m.allowed_command_list (k.current_comm task_comm_len) || has_allow_command c == 0)))

destination_formula :
    (denied allowed command uid gid : Bool)
    → (denied && gid) || ((denied && uid) || ((denied && command) || (not denied && allowed)))
      ≡ (if denied then command || (uid || gid) else allowed)
destination_formula false allowed command uid gid = refl
destination_formula true allowed command uid gid = ground arith

conjunction :
    (destination user denied_group allowed_group command : Bool)
    → (destination && user && (not denied_group && (allowed_group || true)) && command)
      ≡ (destination && (user && (not denied_group && command)))
conjunction destination user denied_group allowed_group command = ground arith

module _ (e : ℤ) (nonzero : is_zero e ≡ false) where
  is_zero-connect :
      (denied allowed command uid gid : Bool)
      → is_zero (
          if denied && gid
          then pos 0
          else if denied && uid
          then pos 0
          else if denied && command
          then pos 0
          else if denied
          then e
          else grant e allowed)
        ≡ (if denied then command || (uid || gid) else allowed)
  is_zero-connect denied allowed command uid gid =
      rw
        (
          revoke_lem e denied allowed,
          extend_lem e (denied && command) (not denied && allowed),
          extend_lem e (denied && uid) ((denied && command) || (not denied && allowed)),
          extend_lem e (denied && gid)
              ((denied && uid) || ((denied && command) || (not denied && allowed))),
        )
        (is_zero-grant e _ nonzero ∙ destination_formula denied allowed command uid gid)

  is_zero-list :
      (denied granted : Bool)
      → is_zero (if denied then e else grant e granted) ≡ (not denied && granted)
  is_zero-list denied granted = rw (revoke_lem e denied granted) (is_zero-grant e _ nonzero)

-- The tests of the program grant the connection exactly if the destination and the process may.
pub can_access_lem :
    (k : Kernel) (m : Maps) (c : Option Config) (is_ipv4 is_ipv6 : Bool) (key : List ℕ)
    → 0 < k.eperm
    → can_access k m c is_ipv4 is_ipv6 key
      ≡ (if destination_ok k m is_ipv4 is_ipv6 key && process_ok k m c then pos 0 else neg k.eperm)
unfolding can_access
can_access_lem k m c is_ipv4 is_ipv6 key h =
    let nonzero = is_zero-neg k.eperm h in
    rw
      (
        is_zero-connect (neg k.eperm) nonzero,
        is_zero-list (neg k.eperm) nonzero,
        is_zero-list (neg k.eperm) nonzero,
        is_zero-list (neg k.eperm) nonzero,
      )
      (ap (grant (neg k.eperm)) (
        conjunction _ _ (m.denied_gid_list (current_gid k)) (m.allowed_gid_list (current_gid k)) _))

-- `return 0` for lack of an IP address family, or of a port other than 0, or because only
-- containers are restricted.
abbrev pub passed_over : Kernel → Maps → ℕ → Bool
passed_over k m address =
    (not (sa_family k address == af_inet) && not (sa_family k address == af_inet6))
    || (((sa_family k address == af_inet6 && is_destination_port_zero_v6 k address)
          || (sa_family k address == af_inet && is_destination_port_zero_v4 k address))
        || (only_container (m.network_bouheki_config_map 0) && not (is_container k)))

-- The destination is looked up by its whole address.
abbrev pub destination_permitted : Kernel → Maps → ℕ → Bool
destination_permitted k m address =
    if listed_cidr k m.denied_v4_cidr_list m.denied_v6_cidr_list address
    then m.allowed_command_list (k.current_comm task_comm_len)
      || (m.allowed_uid_list (current_uid k) || m.allowed_gid_list (current_gid k))
    else listed_cidr k m.allowed_v4_cidr_list m.allowed_v6_cidr_list address

-- The verdict on a connection.
abbrev pub verdict : Kernel → Maps → ℕ → ℤ
verdict k m address =
    if destination_permitted k m address && process_ok k m (m.network_bouheki_config_map 0)
    then pos 0
    else neg k.eperm

-- The family, as the two flags of the source: at most one of them is set.
pub in_cidr_list_lem :
    (k : Kernel) (v4_list v6_list : List ℕ → Bool) (uninit address : ℕ)
    → IsKernel k
    → (sa_family k address ≡ af_inet) ⊎ (sa_family k address ≡ af_inet6)
    → in_cidr_list v4_list v6_list
        (sa_family k address == af_inet)
        (sa_family k address == af_inet6)
        (trie_key k
          (sa_family k address == af_inet6)
          (if sa_family k address == af_inet6 then uninit else address)
          (if sa_family k address == af_inet6 then address else uninit))
      ≡ listed_cidr k v4_list v6_list address
in_cidr_list_lem k v4_list v6_list uninit address s (inl e) =
    rw (e, trie_key_ipv4 k s address uninit) (or_false _)
in_cidr_list_lem k v4_list v6_list uninit address s (inr e) =
    rw (e, trie_key_ipv6 k s uninit address)
