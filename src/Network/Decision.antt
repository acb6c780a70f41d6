-- ===== src/Network/Decision.antt =====
-- What the program of pkg/bpf/c/restricted-network.bpf.c does, in terms of the policy.
use bouheki.Prelude.{
  ℕ, ◌≡◌, refl, sym, ◌∙◌, [], ◌∷◌, Bool, false, true, ◌&&◌, ◌||◌, not, Option, none, some, ◌⊎◌,
  if◌then◌else◌, ◌==◌, ==_iff, ℤ, pos, Bool-cases, inl, inr, and_false, is_zero, arith,
}
use bouheki.Kernel.{Kernel, IsKernel, Outcome}
use bouheki.Common.Container.{is_container}
use bouheki.Network.Structs.{action_block, action_monitor, af_inet, af_inet6}
use bouheki.Network.Report.{is_destination_port_zero_v4, is_destination_port_zero_v6}
use bouheki.Network.Connect.{
  Maps, Config, can_access, ignored, is_block, is_monitor, only_container, report, respond,
  sa_family, socket_connect, trie_key,
}
use bouheki.Network.Policy.{can_access_lem, in_cidr_list_lem, passed_over, verdict}

merge_tests :
    {A : Type 0} (a b : Bool) (x y : A)
    → (if a then x else if b then x else y) ≡ (if a || b then x else y)
merge_tests true b x y = refl
merge_tests false b x y = refl

-- The two modes exclude one another.
is_monitor-not-block : (c : Option Config) → is_monitor c ≡ true → is_block c ≡ false
is_monitor-not-block none h = refl
is_monitor-not-block (some c) h = ground arith

-- A connection that is tested: in monitor mode it is permitted and reported, in block mode the
-- verdict is returned and a refusal is reported, in any other mode the verdict is returned.
abbrev pub tested : Kernel → Option Config → Bool → ℤ → ℕ → ℕ → Outcome
tested k c is_ipv4 v sock_ptr address = record {
  ret = if is_monitor c then pos 0 else v;
  events =
      if is_monitor c
      then report k is_ipv4 action_monitor sock_ptr address ∷ []
      else if not (is_zero v) && is_block c
      then report k is_ipv4 action_block sock_ptr address ∷ []
      else [];
}

respond-eq-tested :
    (k : Kernel) (c : Option Config) (is_ipv4 : Bool) (v : ℤ) (sock_ptr address : ℕ)
    → respond k c is_ipv4 v sock_ptr address ≡ tested k c is_ipv4 v sock_ptr address
unfolding respond
respond-eq-tested k c is_ipv4 v sock_ptr address = elim (Bool-cases (is_monitor c)) [
  | inl monitor ↦ rw (monitor, is_monitor-not-block c monitor, and_false (not (is_zero v)))
  | inr other ↦ rw other
]

-- The outcome by the policy: 0 and no event for a connection that is passed over, otherwise what
-- the mode and the verdict of the lists say.
abbrev pub decision : Kernel → Maps → ℕ → ℕ → Outcome
decision k m sock_ptr address =
    if passed_over k m address
    then record { ret = pos 0; events = [] }
    else tested k (m.network_bouheki_config_map 0) (sa_family k address == af_inet)
        (verdict k m address) sock_ptr address

module _ (k : Kernel) (s : IsKernel k) (m : Maps) (uninit sock_ptr address : ℕ) where
  -- the tests of the program, under the key that it builds, give the verdict
  can_access-eq-verdict :
      (sa_family k address ≡ af_inet) ⊎ (sa_family k address ≡ af_inet6)
      → can_access k m
          (m.network_bouheki_config_map 0)
          (sa_family k address == af_inet)
          (sa_family k address == af_inet6)
          (trie_key k
            (sa_family k address == af_inet6)
            (if sa_family k address == af_inet6 then uninit else address)
            (if sa_family k address == af_inet6 then address else uninit))
        ≡ verdict k m address
  can_access-eq-verdict family =
      can_access_lem k m (m.network_bouheki_config_map 0) _ _ _ s.eperm_pos
      ∙ rw (
        in_cidr_list_lem k m.denied_v4_cidr_list m.denied_v6_cidr_list uninit address s family,
        in_cidr_list_lem k m.allowed_v4_cidr_list m.allowed_v6_cidr_list uninit address s family,
      )

  connect_ipv4 :
      sa_family k address ≡ af_inet
      → socket_connect k m uninit sock_ptr address ≡ decision k m sock_ptr address
  unfolding socket_connect
  connect_ipv4 e =
      rw (can_access-eq-verdict (inl e), respond-eq-tested, e)
        (merge_tests (is_destination_port_zero_v4 k address)
          (only_container (m.network_bouheki_config_map 0) && not (is_container k)) ignored _)

  connect_ipv6 :
      sa_family k address ≡ af_inet6
      → socket_connect k m uninit sock_ptr address ≡ decision k m sock_ptr address
  unfolding socket_connect
  connect_ipv6 e =
      rw (can_access-eq-verdict (inr e), respond-eq-tested, e)
        (merge_tests (is_destination_port_zero_v6 k address || false)
          (only_container (m.network_bouheki_config_map 0) && not (is_container k)) ignored _)

  connect_other :
      (sa_family k address == af_inet) ≡ false
      → (sa_family k address == af_inet6) ≡ false
      → socket_connect k m uninit sock_ptr address ≡ decision k m sock_ptr address
  unfolding socket_connect
  connect_other e f = rw (e, f)

  -- What the program returns and which events it sends, on every branch: 0 and none for another
  -- address family, for port 0, and for a process of the host if only containers are restricted;
  -- otherwise, in monitor mode, 0 and one event with the action monitor; in block mode the verdict
  -- of the lists on the process and the whole destination address, with one event with the action
  -- block exactly if it is a refusal; in any other mode, or without a configuration, the verdict and
  -- no event.
  pub socket_connect-eq-decision :
      socket_connect k m uninit sock_ptr address ≡ decision k m sock_ptr address
  socket_connect-eq-decision = elim (Bool-cases (sa_family k address == af_inet)) [
    | inl v4 ↦ connect_ipv4 ((==_iff _ _).0 v4)
    | inr not_v4 ↦ elim (Bool-cases (sa_family k address == af_inet6)) [
      | inl v6 ↦ connect_ipv6 ((==_iff _ _).0 v6)
      | inr not_v6 ↦ connect_other not_v4 not_v6
    ]
  ]

  -- The value that the program returns to the hook.
  pub ret-socket_connect : (socket_connect k m uninit sock_ptr address).ret ≡ (
      if passed_over k m address
      then pos 0
      else if is_monitor (m.network_bouheki_config_map 0)
      then pos 0
      else verdict k m address)
  ret-socket_connect = rw socket_connect-eq-decision (elim (Bool-cases (passed_over k m address)) [
    | inl passed ↦ rw passed
    | inr passed_on ↦ rw passed_on
  ])

-- Whatever value the pointer has that the source reads before it is set, the program returns the
-- same value and sends the same events.
pub uninit_irrelevant :
    (k : Kernel) (m : Maps) (uninit uninit' sock_ptr address : ℕ)
    → IsKernel k
    → socket_connect k m uninit sock_ptr address ≡ socket_connect k m uninit' sock_ptr address
uninit_irrelevant k m uninit uninit' sock_ptr address s =
    socket_connect-eq-decision k s m uninit sock_ptr address
    ∙ sym (socket_connect-eq-decision k s m uninit' sock_ptr address)
