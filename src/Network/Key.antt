-- ===== src/Network/Key.antt =====
-- The key under which pkg/bpf/c/restricted-network.bpf.c looks a destination up in its tries.
use bouheki.Prelude.{ℕ, ◌+◌, ◌≡◌, sym, List, [], ◌∷◌, ◌++◌, false, true, arith, length}
use native.Mathlib.Nat.{le_of_eq}
use bouheki.CType.{sizeof}
use bouheki.Buffer.{get_member, le_bytes, offset_of, size_of, zeroed}
use bouheki.Buffer.Bytes.{length-le_bytes, read_at-write_two}
use bouheki.Buffer.Members.{length-assign}
use bouheki.Kernel.{Kernel, IsKernel, core_read}
use bouheki.Kernel.Types.Socket.{sockaddr_in, sockaddr_in6}
use bouheki.Network.Structs.{ip_trie_key}
use bouheki.Network.Connect.{trie_key}

-- The address of the destination, as it is stored: in network byte order.
abbrev pub destination4 : Kernel → ℕ → List ℕ
destination4 k address = k.load (address + offset_of sockaddr_in ("sin_addr" ∷ [])) 4

abbrev pub destination6 : Kernel → ℕ → List ℕ
destination6 k address = core_read k sockaddr_in6 ("sin6_addr" ∷ []) address

pub length-destination6 : (k : Kernel) → IsKernel k → (a : ℕ) → length (destination6 k a) ≡ 16
unfolding core_read size_of
length-destination6 k s a = s.length-probe_read_kernel _ 16

-- For an IPv4 address the key of the search holds the prefix length 32, in the byte order of the
-- machine, and then the four bytes of the destination.
pub trie_key_ipv4 :
    (k : Kernel)
    → IsKernel k
    → (a b : ℕ)
    → get_member ip_trie_key ("v4" ∷ []) (trie_key k false a b) ≡ le_bytes 4 32 ++ destination4 k a
unfolding trie_key offset_of size_of sizeof
trie_key_ipv4 k s a b =
    read_at-write_two 4 4 (le_bytes 4 32) (destination4 k a) (zeroed ip_trie_key)
      (length-le_bytes 4 32) (s.length-load _ 4) (omega arith)

length-trie_key : (k : Kernel) (a b : ℕ) → length (trie_key k false a b) ≡ 20
unfolding trie_key sizeof
length-trie_key k a b =
    length-assign ip_trie_key
      (("v4" ∷ "prefixlen" ∷ [], le_bytes 4 32) ∷ ("v4" ∷ "addr" ∷ [], destination4 k a) ∷ [])
      (zeroed ip_trie_key)

-- For an IPv6 address the key of the search holds the prefix length 128 and then the 16 bytes of
-- the destination; the IPv4 members that were written into the union before do not show.
pub trie_key_ipv6 :
    (k : Kernel)
    → IsKernel k
    → (a b : ℕ)
    → get_member ip_trie_key ("v6" ∷ []) (trie_key k true a b) ≡ le_bytes 4 128 ++ destination6 k b
unfolding trie_key offset_of size_of sizeof
trie_key_ipv6 k s a b =
    read_at-write_two 4 16 (le_bytes 4 128) (destination6 k b) (trie_key k false a b)
      (length-le_bytes 4 128) (length-destination6 k s b) (le_of_eq (sym (length-trie_key k a b)))
