-- ===== src/Network/Ports.antt =====
-- Ports: the programs of pkg/bpf/c swap the two bytes of a port, which are stored in network byte
-- order.
use bouheki.Prelude.{ℕ, ◌<◌, ◌≡◌, ap₂, List, [], ◌∷◌, arith, length, get_or}
use bouheki.Buffer.{le_bytes, from_le_bytes}
use bouheki.Network.Structs.{bswap16}

-- The two bytes of an integer, the other way round.
abbrev pub swapped : List ℕ → List ℕ
swapped bs = get_or bs 1 0 ∷ get_or bs 0 0 ∷ []

pub le_bytes-bswap16 :
    (bs : List ℕ)
    → length bs ≡ 2
    → ((i : ℕ) → get_or bs i 0 < 256)
    → le_bytes 2 (bswap16 (from_le_bytes bs)) ≡ swapped bs
unfolding le_bytes from_le_bytes bswap16
le_bytes-bswap16 [] h byte = absurd (omega arith)
le_bytes-bswap16 (a ∷ []) h byte = absurd (omega arith)
le_bytes-bswap16 (a ∷ b ∷ []) h byte =
    let ha = byte 0 in let hb = byte 1 in ap₂ (λ x y. x ∷ y ∷ []) (omega arith) (omega arith)
le_bytes-bswap16 (a ∷ b ∷ c ∷ bs) h byte = absurd (omega arith)
