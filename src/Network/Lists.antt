-- ===== src/Network/Lists.antt =====
-- How the verdict of pkg/bpf/c/restricted-network.bpf.c depends on its lists.
use bouheki.Prelude.{ℕ, ◌≡◌, sym, ◌∙◌, Bool, false, true, ◌⊎◌, inl, inr, neg, and_false}
use bouheki.Kernel.{Kernel, IsKernel}
use bouheki.Common.{task_comm_len}
use bouheki.Network.Connect.{Maps, current_gid, current_uid, is_monitor, socket_connect}
use bouheki.Network.Policy.{destination_permitted, listed_cidr, passed_over, process_ok}
use bouheki.Network.Decision.{ret-socket_connect}

module _ (k : Kernel) (s : IsKernel k) (m : Maps) (uninit sock_ptr address : ℕ) where
  -- A process whose name, user or group is denied is refused, whatever the lists that allow say,
  -- where the connection is tested and the mode is not monitor.
  pub denied_process_refused :
      (m.denied_command_list (k.current_comm task_comm_len) ≡ true)
        ⊎ ((m.denied_uid_list (current_uid k) ≡ true) ⊎ (m.denied_gid_list (current_gid k) ≡ true))
      → passed_over k m address ≡ false
      → is_monitor (m.network_bouheki_config_map 0) ≡ false
      → (socket_connect k m uninit sock_ptr address).ret ≡ neg k.eperm
  denied_process_refused denied tested blocking =
      ret-socket_connect k s m uninit sock_ptr address
      ∙ rw (tested, blocking, not_ok denied, and_false (destination_permitted k m address))
    where
      not_ok :
          (m.denied_command_list (k.current_comm task_comm_len) ≡ true)
            ⊎ ((m.denied_uid_list (current_uid k) ≡ true)
                ⊎ (m.denied_gid_list (current_gid k) ≡ true))
          → process_ok k m (m.network_bouheki_config_map 0) ≡ false
      not_ok (inl command) = rw (command, and_false, and_false)
      not_ok (inr (inl uid)) = rw uid
      not_ok (inr (inr gid)) = rw (gid, and_false)

  -- If the destination is not in a denied range, the program returns the same value whatever the
  -- list of allowed groups is.
  pub allowed_gid_list_irrelevant :
      (other : ℕ → Bool)
      → listed_cidr k m.denied_v4_cidr_list m.denied_v6_cidr_list address ≡ false
      → (socket_connect k m uninit sock_ptr address).ret
        ≡ (socket_connect k (record m { allowed_gid_list = other }) uninit sock_ptr address).ret
  allowed_gid_list_irrelevant other outside =
      ret-socket_connect k s m uninit sock_ptr address
      ∙ rw outside (
          sym (
            ret-socket_connect k s (record m { allowed_gid_list = other }) uninit sock_ptr address
            ∙ rw outside))
