-- ===== src/Network/Connect.antt =====
-- pkg/bpf/c/restricted-network.bpf.c: the program on the LSM hook socket_connect. For an IPv6
-- address the source reads `sin_addr` through a pointer that was never set; its value is the
-- parameter `uninit` here.
use bouheki.Prelude.{
  ℕ, ◌+◌, ◌/◌, ◌%◌, ◌^◌, List, [], ◌∷◌, ◌++◌, Option, none, some, Bool, false, ◌&&◌, ◌||◌, not,
  if◌then◌else◌, ◌==◌, is_zero, ℤ, pos, neg,
}
use bouheki.Buffer.{assign, get_member, le_bytes, from_le_bytes, offset_of, zeroed}
use bouheki.Kernel.{Kernel, Outcome, core_read}
use bouheki.Kernel.Types.Net.{sockaddr}
use bouheki.Kernel.Types.Socket.{sockaddr_in, sockaddr_in6}
use bouheki.Common.{connect, mode_block, mode_monitor, target_container, task_comm_len}
use bouheki.Common.Container.{is_container}
use bouheki.Network.Structs.{action_block, action_monitor, af_inet, af_inet6, ip_trie_key}
use bouheki.Network.Report.{
  is_destination_port_zero_v4, is_destination_port_zero_v6, report_ipv4_event, report_ipv6_event,
}

-- struct network_bouheki_config; its two counts are tested for 0 only
pub record Config : Type 0 where
  pub mode : ℕ
  pub target : ℕ
  pub has_allow_command : ℕ
  pub has_allow_uid : ℕ

-- The maps: whether a lookup finds an entry. The keys of the tries are the bytes of the structs
-- ipv4_trie_key and ipv6_trie_key.
pub record Maps : Type 0 where
  pub network_bouheki_config_map : ℕ → Option Config
  pub allowed_command_list : List ℕ → Bool
  pub denied_command_list : List ℕ → Bool
  pub allowed_uid_list : ℕ → Bool
  pub denied_uid_list : ℕ → Bool
  pub allowed_gid_list : ℕ → Bool
  pub denied_gid_list : ℕ → Bool
  pub denied_v4_cidr_list : List ℕ → Bool
  pub denied_v6_cidr_list : List ℕ → Bool
  pub allowed_v4_cidr_list : List ℕ → Bool
  pub allowed_v6_cidr_list : List ℕ → Bool

-- address->sa_family
unfoldable pub sa_family : Kernel → ℕ → ℕ
sa_family k address = from_le_bytes (k.load (address + offset_of sockaddr ("sa_family" ∷ [])) 2)

-- The bytes of `key` when the tries are searched.
unfoldable pub trie_key : Kernel → Bool → ℕ → ℕ → List ℕ
trie_key k is_ipv6 inet_addr4 inet_addr6 =
    let key =
      assign ip_trie_key
        (("v4" ∷ "prefixlen" ∷ [], le_bytes 4 32)
          ∷ ("v4" ∷ "addr" ∷ [], k.load (inet_addr4 + offset_of sockaddr_in ("sin_addr" ∷ [])) 4)
          ∷ [])
        (zeroed ip_trie_key) in
    if is_ipv6
    then assign ip_trie_key
        (("v6" ∷ "prefixlen" ∷ [], le_bytes 4 128)
          ∷ ("v6" ∷ "addr" ∷ [], core_read k sockaddr_in6 ("sin6_addr" ∷ []) inet_addr6)
          ∷ [])
        key
    else key

-- `c && c->has_allow_command ? c->has_allow_command : 0`, as the source computes it
abbrev pub has_allow_command : Option Config → ℕ
has_allow_command none = 0
has_allow_command (some c) = c.has_allow_command

abbrev pub has_allow_uid : Option Config → ℕ
has_allow_uid none = 0
has_allow_uid (some c) = c.has_allow_uid

-- `c && c->target == TARGET_CONTAINER`, `c && c->mode == …`
abbrev pub only_container : Option Config → Bool
only_container none = false
only_container (some c) = c.target == target_container

abbrev pub is_block : Option Config → Bool
is_block none = false
is_block (some c) = c.mode == mode_block

abbrev pub is_monitor : Option Config → Bool
is_monitor none = false
is_monitor (some c) = c.mode == mode_monitor

-- `(is_ipv4 && lookup(v4 list, &key.v4)) || (is_ipv6 && lookup(v6 list, &key.v6))`
abbrev pub in_cidr_list : (List ℕ → Bool) → (List ℕ → Bool) → Bool → Bool → List ℕ → Bool
in_cidr_list v4_list v6_list is_ipv4 is_ipv6 key =
    (is_ipv4 && v4_list (get_member ip_trie_key ("v4" ∷ []) key))
    || (is_ipv6 && v6_list (get_member ip_trie_key ("v6" ∷ []) key))

-- (unsigned)(bpf_get_current_uid_gid() & 0xffffffff) and (unsigned)(… >> 32)
abbrev pub current_uid : Kernel → ℕ
current_uid k = k.current_uid_gid % 2 ^ 32

abbrev pub current_gid : Kernel → ℕ
current_gid k = k.current_uid_gid / 2 ^ 32 % 2 ^ 32

-- The tests against the lists: 0 or -EPERM.
unfoldable pub can_access : Kernel → Maps → Option Config → Bool → Bool → List ℕ → ℤ
can_access k m c is_ipv4 is_ipv6 key =
    let eperm = neg k.eperm in
    let comm = k.current_comm task_comm_len in
    let uid = current_uid k in
    let gid = current_gid k in
    let has_allow_gid : ℕ = 0 in
    let denied_cidr =
      in_cidr_list m.denied_v4_cidr_list m.denied_v6_cidr_list is_ipv4 is_ipv6 key in
    let allow_connect =
      if in_cidr_list m.allowed_v4_cidr_list m.allowed_v6_cidr_list is_ipv4 is_ipv6 key
      then pos 0
      else eperm in
    let allow_uid = if m.allowed_uid_list uid || has_allow_uid c == 0 then pos 0 else eperm in
    let allow_gid = if m.allowed_gid_list gid || has_allow_gid == 0 then pos 0 else eperm in
    let allow_command =
      if m.allowed_command_list comm || has_allow_command c == 0 then pos 0 else eperm in
    let allow_command' = if m.denied_command_list comm then eperm else allow_command in
    let allow_uid' = if m.denied_uid_list uid then eperm else allow_uid in
    let allow_gid' = if m.denied_gid_list gid then eperm else allow_gid in
    let allow_connect' = if denied_cidr then eperm else allow_connect in
    let by_command = if denied_cidr && m.allowed_command_list comm then pos 0 else allow_connect' in
    let by_uid = if denied_cidr && m.allowed_uid_list uid then pos 0 else by_command in
    let by_gid = if denied_cidr && m.allowed_gid_list gid then pos 0 else by_uid in
    if is_zero by_gid && is_zero allow_uid' && is_zero allow_gid' && is_zero allow_command'
    then pos 0
    else eperm

-- The event for the family of the address.
unfoldable pub report : Kernel → Bool → ℕ → ℕ → ℕ → List ℕ
report k is_ipv4 action sock_ptr address =
    if is_ipv4
    then report_ipv4_event k k.current_cgroup_id action connect sock_ptr address
    else report_ipv6_event k k.current_cgroup_id action connect sock_ptr address

-- From the tests of the mode on.
unfoldable pub respond : Kernel → Option Config → Bool → ℤ → ℕ → ℕ → Outcome
respond k c is_ipv4 access sock_ptr address =
    let blocked =
      if not (is_zero access) && is_block c
      then report k is_ipv4 action_block sock_ptr address ∷ []
      else [] in
    if is_monitor c
    then record {
      ret = pos 0;
      events = blocked ++ report k is_ipv4 action_monitor sock_ptr address ∷ [];
    }
    else record { ret = access; events = blocked }

-- `return 0` in front of every effect.
abbrev pub ignored : Outcome
ignored = record { ret = pos 0; events = [] }

unfoldable pub socket_connect :
    (k : Kernel) (m : Maps) (uninit : ℕ) (sock_ptr address : ℕ) → Outcome
socket_connect k m uninit sock_ptr address =
    let is_ipv6 = sa_family k address == af_inet6 in
    let is_ipv4 = sa_family k address == af_inet in
    let inet_addr6 = if is_ipv6 then address else uninit in
    let inet_addr4 = if is_ipv6 then uninit else address in
    let c = m.network_bouheki_config_map 0 in
    if not (is_ipv4 || is_ipv6)
    then ignored
    else if (is_ipv6 && is_destination_port_zero_v6 k inet_addr6)
        || (is_ipv4 && is_destination_port_zero_v4 k inet_addr4)
    then ignored
    else if only_container c && not (is_container k)
    then ignored
    else respond k c is_ipv4
        (can_access k m c is_ipv4 is_ipv6 (trie_key k is_ipv6 inet_addr4 inet_addr6)) sock_ptr
        address
