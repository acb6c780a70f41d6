-- ===== src/Audit/Network/Written.antt =====
-- From pkg/audit/network/manager.go to pkg/bpf/c/restricted-network.bpf.c: what the program reads of
-- the bytes that the manager writes.
use bouheki.Prelude.{
  ℕ, ◌%◌, ◌^◌, ◌≤◌, ◌<◌, ◌≡◌, refl, sym, ap, ◌∙◌, List, [], ◌∷◌, true, false, arith, if◌then◌else◌,
  Bool-cases, inl, inr, length, replicate, take, ◌↔◌, get_or, zero, suc,
}
use bouheki.CType.{CType, struct, end, ◌⨾◌, ◌∶◌, sizeof}
use bouheki.Buffer.{overlay, from_le_bytes, get_member, le_bytes, offset_of, size_of}
use bouheki.Buffer.Bytes.{from_le_bytes-le_bytes, length-le_bytes, read_at-write_two}
use bouheki.Kernel.{Kernel, IsKernel}
use bouheki.Kernel.Types.Scalars.{int}
use bouheki.Common as C
use bouheki.Network.Structs.{ip_trie_key, ipv4_trie_key, ipv6_trie_key}
use bouheki.Network.Connect.{Config, current_uid, trie_key}
use bouheki.Network.Key.{
  length-destination6, destination4, destination6, trie_key_ipv4, trie_key_ipv6,
}
use bouheki.Audit.Network.Manager.{
  byte_to_key, uint_to_key, RestrictedNetworkConfig, ipv4_to_key, ipv6_to_key, is_only_container,
  is_restricted_mode, set_config_map, uint32_len,
}

-- struct network_bouheki_config, as it lies in memory
abbrev pub network_bouheki_config : CType
network_bouheki_config =
    struct ("mode" ∶ int ⨾ "target" ∶ int ⨾ "has_allow_command" ∶ int ⨾ "has_allow_uid" ∶ int ⨾ end)

-- The configuration that the program sees, given the bytes of a value of the map.
abbrev pub loaded : List ℕ → Config
loaded value = record {
  mode = from_le_bytes (get_member network_bouheki_config ("mode" ∷ []) value);
  target = from_le_bytes (get_member network_bouheki_config ("target" ∷ []) value);
  has_allow_command =
      from_le_bytes (get_member network_bouheki_config ("has_allow_command" ∷ []) value);
  has_allow_uid = from_le_bytes (get_member network_bouheki_config ("has_allow_uid" ∷ []) value);
}

-- The two counts are read back, whatever the mode and the target are.
counts-loaded :
    (c : RestrictedNetworkConfig) (m t : ℕ)
    → Path Config
        (record {
          mode = m;
          target = t;
          has_allow_command = from_le_bytes (le_bytes 4 (uint32_len c.allow_commands));
          has_allow_uid = from_le_bytes (le_bytes 4 (uint32_len c.allow_uids));
        })
        (record {
          mode = m;
          target = t;
          has_allow_command = uint32_len c.allow_commands;
          has_allow_uid = uint32_len c.allow_uids;
        })
counts-loaded c m t =
    rw
      (
        from_le_bytes-le_bytes 4 (uint32_len c.allow_commands) (omega arith),
        from_le_bytes-le_bytes 4 (uint32_len c.allow_uids) (omega arith),
      )
      refl

-- The map holds the first 16 of the 20 bytes. In them the program finds the mode and the target of
-- the configuration, and the numbers of allowed commands and users; the number of allowed groups,
-- which the manager writes behind them, is cut off.
pub loaded-set_config_map :
    (c : RestrictedNetworkConfig)
    → loaded (take (sizeof network_bouheki_config) (set_config_map c)) ≡ record {
      mode = if is_restricted_mode c then C.mode_block else C.mode_monitor;
      target = if is_only_container c then C.target_container else C.target_host;
      has_allow_command = uint32_len c.allow_commands;
      has_allow_uid = uint32_len c.allow_uids;
    }
unfolding set_config_map offset_of size_of sizeof le_bytes from_le_bytes
loaded-set_config_map c = elim (Bool-cases (is_restricted_mode c)) [
  | inl block ↦ elim (Bool-cases (is_only_container c)) [
    | inl container ↦ rw (block, container) (counts-loaded c 1 1)
    | inr host ↦ rw (block, host) (counts-loaded c 1 0)
  ]
  | inr monitor ↦ elim (Bool-cases (is_only_container c)) [
    | inl container ↦ rw (monitor, container) (counts-loaded c 0 1)
    | inr host ↦ rw (monitor, host) (counts-loaded c 0 0)
  ]
]

-- The key of an entry for one IPv4 address, a range of 32 bits, is the key under which the program
-- looks that address up, in the bytes that the trie takes of it.
ipv4_to_key-eq-trie_key :
    (k : Kernel)
    → IsKernel k
    → (address other : ℕ)
    → take (sizeof ipv4_trie_key) (ipv4_to_key 32 (destination4 k address))
      ≡ get_member ip_trie_key ("v4" ∷ []) (trie_key k false address other)
unfolding ipv4_to_key sizeof
ipv4_to_key-eq-trie_key k s address other =
    read_at-write_two 4 4 (le_bytes 4 32) (destination4 k address) (replicate 16 0)
      (length-le_bytes 4 32) (s.length-load _ 4) (omega arith)
    ∙ sym (trie_key_ipv4 k s address other)

-- The key of an entry for one IPv6 address, a range of 128 bits, is the key under which the program
-- looks that address up.
ipv6_to_key-eq-trie_key :
    (k : Kernel)
    → IsKernel k
    → (other address : ℕ)
    → take (sizeof ipv6_trie_key) (ipv6_to_key 128 (destination6 k address))
      ≡ get_member ip_trie_key ("v6" ∷ []) (trie_key k true other address)
unfolding ipv6_to_key sizeof
ipv6_to_key-eq-trie_key k s other address =
    read_at-write_two 4 16 (le_bytes 4 128) (destination6 k address) (replicate 20 0)
      (length-le_bytes 4 128) (length-destination6 k s address) (omega arith)
    ∙ sym (trie_key_ipv6 k s other address)

-- The key of an entry for a user, as bytes, is that of the user of the current process exactly if
-- the number in the configuration is this user modulo 2 ^ 32.
uint_to_key-current_uid_iff :
    (k : Kernel) (uid : ℕ)
    → (uint_to_key uid ≡ le_bytes 4 (current_uid k)) ↔ (uid % 2 ^ 32 ≡ current_uid k)
unfolding uint_to_key le_bytes
uint_to_key-current_uid_iff k uid = (
  λ same.
      sym (from_le_bytes-le_bytes 4 (uid % 2 ^ 32) (omega arith))
      ∙ (ap from_le_bytes same ∙ from_le_bytes-le_bytes 4 (current_uid k) (omega arith)),
  λ e. ap (le_bytes 4) e,
)

get_or-overlay :
    (bs buf : List ℕ) (i : ℕ)
    → i < length bs
    → i < length buf
    → get_or (overlay bs buf) i 0 ≡ get_or bs i 0
get_or-overlay [] buf i h g = absurd (omega arith)
get_or-overlay (b ∷ bs) [] i h g = absurd (omega arith)
get_or-overlay (b ∷ bs) (x ∷ buf) zero h g = refl
get_or-overlay (b ∷ bs) (x ∷ buf) (suc i) h g = get_or-overlay bs buf i (omega arith) (omega arith)

-- An entry for a command whose name has 16 bytes or more, the 16th of them not NUL, is not the key
-- of a process whose name has a NUL as its 16th byte, as every name has in the kernel.
pub byte_to_key-current_comm :
    (k : Kernel) (name : List ℕ)
    → get_or (k.current_comm C.task_comm_len) 15 0 ≡ 0
    → 16 ≤ length name
    → ¬ (get_or name 15 0 ≡ 0)
    → ¬ (byte_to_key name ≡ k.current_comm C.task_comm_len)
unfolding byte_to_key
byte_to_key-current_comm k name terminated long not_nul same = not_nul (
    sym (get_or-overlay name (replicate 16 0) 15 (omega arith) (omega arith))
    ∙ (ap (λ bs. get_or bs 15 0) same ∙ terminated))
