-- ===== src/Kernel/Search.antt =====
-- bpf_for_each_map_elem as a search: a callback that sets a mark in its context when it meets a
-- value of interest, and always returns 0.
use bouheki.Prelude.{
  ℕ, ◌≡◌, refl, List, [], ◌∷◌, ◌++◌, arith, Bool, false, true, ◌||◌, ap, ap₂, ◌∙◌, if◌then◌else◌,
  Bool-cases, inl, inr,
}
use mathlib.Core.List.{Perm, Permᴰ}
use mathlib.Core.Logic.{∥∥₁_elim}
use bouheki.Kernel.{visit}

-- Some entry's value passes the test.
abbrev pub any_value : {V : Type 0} → (V → Bool) → List (ℕ × V) → Bool
any_value hit [] = false
any_value hit ((key, v) ∷ rest) = hit v || any_value hit rest

-- `unset` and `set` are the context without and with the mark.
module _ {V C : Type 0} (cb : ℕ → V → C → ℕ × C) (hit : V → Bool) (unset set : C)
    (stays : (key : ℕ) (v : V) → (cb key v set).1 ≡ set)
    (marks : (key : ℕ) (v : V) → (cb key v unset).1 ≡ (if hit v then set else unset)) where
  visit_set : (es : List (ℕ × V)) → visit cb es set ≡ set
  visit_set [] = refl
  visit_set ((key, v) ∷ rest) = rw (stays key v) (visit_set rest)

  pub visit_lem :
      (es : List (ℕ × V)) → visit cb es unset ≡ (if any_value hit es then set else unset)
  visit_lem [] = refl
  visit_lem ((key, v) ∷ rest) = elim (Bool-cases (hit v)) [
    | inl yes_hit ↦ rw (marks key v, yes_hit) (visit_set rest)
    | inr no_hit ↦ rw (marks key v, no_hit) (visit_lem rest)
  ]

or_swap : (a b c : Bool) → a || (b || c) ≡ b || (a || c)
or_swap false false c = refl
or_swap false true c = refl
or_swap true false c = refl
or_swap true true c = refl

any_value-Permᴰ :
    {V : Type 0} (hit : V → Bool) {es fs : List (ℕ × V)}
    → Permᴰ es fs
    → any_value hit es ≡ any_value hit fs
any_value-Permᴰ hit Permᴰ.nil = refl
any_value-Permᴰ hit (Permᴰ.cons e p) = ap₂ ◌||◌ (ap (λ x. hit x.1) e) (any_value-Permᴰ hit p)
any_value-Permᴰ hit (Permᴰ.swap {a' = x} {b' = y} {l} e f) =
    rw (e, f) (or_swap (hit y.1) (hit x.1) (any_value hit l))
any_value-Permᴰ hit (Permᴰ.trans p q) = any_value-Permᴰ hit p ∙ any_value-Permᴰ hit q

-- The order in which the kernel visits the entries does not matter.
pub any_value-Perm :
    {V : Type 0} (hit : V → Bool) {es fs : List (ℕ × V)}
    → Perm es fs
    → any_value hit es ≡ any_value hit fs
any_value-Perm hit p = ∥∥₁_elim p (hlevel) (any_value-Permᴰ hit)

-- One entry of interest is enough, whatever stands before and after it.
pub any_value_mem :
    {V : Type 0} (hit : V → Bool) (before : List (ℕ × V)) (key : ℕ) (v : V) (after : List (ℕ × V))
    → hit v ≡ true
    → any_value hit (before ++ (key, v) ∷ after) ≡ true
any_value_mem hit [] key v after h = rw h
any_value_mem hit ((j, w) ∷ before) key v after h =
    rw (any_value_mem hit before key v after h) (ground arith)
