-- ===== src/Audit/Network/Groups.antt =====
-- Where pkg/audit/network/manager.go writes the denied groups.
use text.Mathlib.Text.{◌==◌ as str_eq}
use bouheki.Prelude.{
  ℕ, ◌≡◌, refl, ap, ◌∙◌, List, [], ◌∷◌, String, Bool, true, false, if◌then◌else◌, map, Bool-cases,
  inl, inr,
}
use bouheki.Audit.Network.Manager.{RestrictedNetworkConfig, uint_to_key}
use bouheki.Audit.Network.Setters.{
  Libbpf, Store, and_then, denied_gid_list_map_name, denied_uid_list_map_name, put,
  set_allowed_command_list, set_allowed_gid_list, set_allowed_uid_list, set_denied_command_list,
  set_denied_gid_list, set_denied_uid_list, set_list, set_process_lists, update_all,
}

-- The keys, the last one first, in front of others.
abbrev pub written : List (List ℕ) → List (List ℕ) → List (List ℕ)
written [] before = before
written (key ∷ keys) before = written keys (key ∷ before)

update_all-other :
    (lib : Libbpf) (name other : String) (keys : List (List ℕ)) (store : Store)
    → str_eq other name ≡ false
    → (update_all lib name keys store).1 other ≡ store other
unfolding update_all
update_all-other lib name other [] store differ = refl
update_all-other lib name other (key ∷ keys) store differ =
    elim (Bool-cases (lib.update store name key)) [
      | inl done ↦
          rw done
            (update_all-other lib name other keys (put name key store) differ ∙ rw differ refl)
      | inr failed ↦ rw failed refl
    ]

set_list-other :
    (lib : Libbpf) (name other : String) (keys : List (List ℕ)) (store : Store)
    → str_eq other name ≡ false
    → (set_list lib name keys store).1 other ≡ store other
unfolding set_list
set_list-other lib name other keys store differ = elim (Bool-cases (lib.get_map name)) [
  | inl found ↦ rw found (update_all-other lib name other keys store differ)
  | inr missing ↦ rw missing refl
]

-- Without an error the branch was taken.
pub if_done :
    (b : Bool) (x : Bool × Store) (store : Store)
    → (if b then x else (false, store)).0 ≡ true
    → ((if b then x else (false, store)) ≡ x) × (x.0 ≡ true)
if_done true x store done = (refl, done)
if_done false x store done = cc

update_all-same :
    (lib : Libbpf) (name : String) (keys : List (List ℕ)) (store : Store)
    → str_eq name name ≡ true
    → (update_all lib name keys store).0 ≡ true
    → (update_all lib name keys store).1 name ≡ written keys (store name)
unfolding update_all
update_all-same lib name [] store same done = refl
update_all-same lib name (key ∷ keys) store same done =
    let (taken, rest_done) = if_done (lib.update store name key) _ store done in
    ap (λ r. r.1 name) taken
    ∙ (update_all-same lib name keys (put name key store) same rest_done ∙ rw same refl)

and_then-keeps :
    (other : String) (before : List (List ℕ)) (r : Bool × Store) (next : Store → Bool × Store)
    → r.1 other ≡ before
    → ((store : Store) → store other ≡ before → (next store).1 other ≡ before)
    → (and_then r next).1 other ≡ before
and_then-keeps other before (false, store) next here there = here
and_then-keeps other before (true, store) next here there = there store here

module _ (lib : Libbpf) (c : RestrictedNetworkConfig) (store : Store) where
  -- If the setter for the denied groups ends without an error, it has written their keys into the
  -- map of the denied users.
  set_denied_gid_list-denied_uid_list :
      (set_denied_gid_list lib c store).0 ≡ true
      → (set_denied_gid_list lib c store).1 denied_uid_list_map_name
        ≡ written (map uint_to_key c.deny_gids) (store denied_uid_list_map_name)
  unfolding set_denied_gid_list set_list
  set_denied_gid_list-denied_uid_list done =
      let (found, updated) = if_done (lib.get_map denied_uid_list_map_name) _ store done in
      ap (λ r. r.1 denied_uid_list_map_name) found
      ∙ update_all-same lib denied_uid_list_map_name (map uint_to_key c.deny_gids) store refl
          updated

  -- Whatever the configuration is and whichever setter fails, nothing is written into the map of
  -- the denied groups.
  pub set_process_lists-denied_gid_list :
      (set_process_lists lib c store).1 denied_gid_list_map_name ≡ store denied_gid_list_map_name
  unfolding set_process_lists set_allowed_command_list set_denied_command_list set_allowed_uid_list
      set_denied_uid_list set_allowed_gid_list set_denied_gid_list
  set_process_lists-denied_gid_list =
      let other = denied_gid_list_map_name in
      let before = store denied_gid_list_map_name in
      and_then-keeps other before (set_allowed_command_list lib c store) _
        (set_list-other lib _ other _ store refl)
        (λ st h.
          and_then-keeps other before (set_denied_command_list lib c st) _
            (set_list-other lib _ other _ st refl ∙ h)
            (λ st h.
              and_then-keeps other before (set_allowed_uid_list lib c st) _
                (set_list-other lib _ other _ st refl ∙ h)
                (λ st h.
                  and_then-keeps other before (set_denied_uid_list lib c st) _
                    (set_list-other lib _ other _ st refl ∙ h)
                    (λ st h.
                      and_then-keeps other before (set_allowed_gid_list lib c st) _
                        (set_list-other lib _ other _ st refl ∙ h)
                        (λ st h. set_list-other lib _ other _ st refl ∙ h)))))
