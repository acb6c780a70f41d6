-- ===== src/Network/Event.antt =====
-- When pkg/bpf/c/restricted-network.bpf.c sends an event, and with which action.
use bouheki.Prelude.{ℕ, ◌≡◌, [], ◌∷◌, ◌&&◌, not, if◌then◌else◌, ◌==◌, is_zero, Bool-cases, inl, inr}
use bouheki.Kernel.{Kernel, IsKernel}
use bouheki.Network.Structs.{action_block, action_monitor, af_inet}
use bouheki.Network.Connect.{Maps, is_block, is_monitor, report, sa_family, socket_connect}
use bouheki.Network.Policy.{passed_over, verdict}
use bouheki.Network.Decision.{socket_connect-eq-decision}

pub events-socket_connect :
    (k : Kernel) (m : Maps) (uninit sock_ptr address : ℕ)
    → IsKernel k
    → (socket_connect k m uninit sock_ptr address).events ≡ (
        if passed_over k m address
        then []
        else if is_monitor (m.network_bouheki_config_map 0)
        then report k (sa_family k address == af_inet) action_monitor sock_ptr address ∷ []
        else if not (is_zero (verdict k m address)) && is_block (m.network_bouheki_config_map 0)
        then report k (sa_family k address == af_inet) action_block sock_ptr address ∷ []
        else [])
events-socket_connect k m uninit sock_ptr address s =
    rw (socket_connect-eq-decision k s m uninit sock_ptr address)
      (elim (Bool-cases (passed_over k m address)) [
        | inl passed ↦ rw passed
        | inr tested ↦ rw tested
      ])
