-- ===== src/Common/Strings.antt =====
-- What `strlen` and `strcmp` of pkg/bpf/c/common_structs.h compute, against C strings as lists.
use bouheki.Prelude.{
  ap₂, sym, ◌∙◌, ◌↔◌, ◌⊎◌, inl, inr, ==_iff, &&_parts, pos, not, ◌||◌, ℕ, zero, suc, ◌+◌, ◌≤◌, ◌≡◌,
  refl, List, [], ◌∷◌, ◌++◌, Bool, true, false, ◌&&◌, arith, if◌then◌else◌, ◌==◌, take, length,
  is_zero, get_or-append,
}
use bouheki.Common.{strcmp, strcmp_from, strlen, strlen_from}

-- The bytes before the first NUL.
abbrev pub cstring : List ℕ → List ℕ
cstring [] = []
cstring (c ∷ s) = if c == 0 then [] else c ∷ cstring s

-- `s` begins with `p`.
abbrev pub prefix : List ℕ → List ℕ → Bool
prefix [] s = true
prefix (c ∷ p) [] = false
prefix (c ∷ p) (d ∷ s) = (c == d) && prefix p s

strlen_from-cons :
    (c : ℕ) (s : List ℕ) (i n : ℕ) → strlen_from (c ∷ s) (suc i) n ≡ suc (strlen_from s i n)
unfolding strlen_from
strlen_from-cons c s i zero = refl
strlen_from-cons c s i (suc n) = ground (arith, strlen_from-cons c s (i + 1) n)

strlen-cons :
    (c : ℕ) (s : List ℕ) (n : ℕ) → strlen (c ∷ s) (suc n) ≡ (if c == 0 then 0 else suc (strlen s n))
unfolding strlen
strlen-cons c s n = ground (arith, strlen_from-cons c s 0 n)

strlen-nil : (n : ℕ) → strlen [] n ≡ 0
unfolding strlen
strlen-nil zero = refl
strlen-nil (suc n) = refl

-- `strlen(s, max_len)` is the length of the C string in the first `max_len` bytes.
pub strlen_lem : (s : List ℕ) (max_len : ℕ) → strlen s max_len ≡ length (cstring (take max_len s))
strlen_lem s zero = unfold strlen in refl
strlen_lem [] (suc n) = strlen-nil (suc n)
strlen_lem (c ∷ s) (suc n) = ground (arith, strlen-cons c s n, strlen_lem s n)

strcmp_from-cons :
    (x y : ℕ) (a b : List ℕ) (i n : ℕ) → strcmp_from (x ∷ a) (y ∷ b) (suc i) n ≡ strcmp_from a b i n
unfolding strcmp_from
strcmp_from-cons x y a b i zero = refl
strcmp_from-cons x y a b i (suc n) = ground (arith, strcmp_from-cons x y a b (i + 1) n)

strcmp-cons :
    (x y : ℕ) (a b : List ℕ) (n : ℕ)
    → strcmp (x ∷ a) (y ∷ b) (suc n)
      ≡ (if not (x == y) || x == 0 || y == 0 then pos 1 else strcmp a b n)
unfolding strcmp
strcmp-cons x y a b n = ground (arith, strcmp_from-cons x y a b 0 n)

strcmp-nil : (x : ℕ) (a : List ℕ) (n : ℕ) → strcmp (x ∷ a) [] (suc n) ≡ pos 1
unfolding strcmp
strcmp-nil x a n = ground arith

strcmp_zero : (a b : List ℕ) → strcmp a b 0 ≡ pos 0
unfolding strcmp
strcmp_zero a b = refl

-- The test of the callbacks, `strcmp(p, b, strlen(p, max_len)) == 0`, asks whether the C string
-- `b` begins with the C string in the first `max_len` bytes of `p`.
pub strcmp-strlen :
    (p b : List ℕ) (max_len : ℕ)
    → is_zero (strcmp p b (strlen p max_len)) ≡ prefix (cstring (take max_len p)) (cstring b)
strcmp-strlen p b zero = unfold strcmp strlen in refl
strcmp-strlen [] b (suc n) = rw (strlen-nil (suc n)) (unfold strcmp in refl)
strcmp-strlen (x ∷ p) [] (suc n) =
    ground (arith, strlen-cons x p n, strcmp-nil x p (strlen p n), strcmp_zero (x ∷ p) [])
strcmp-strlen (x ∷ p) (y ∷ b) (suc n) = ground (
  arith,
  strlen-cons x p n,
  strcmp-cons x y p b (strlen p n),
  strcmp-strlen p b n,
  strcmp_zero (x ∷ p) (y ∷ b),
)

-- `strcmp` reads inside its arrays: what follows the first `len` bytes does not matter.
strcmp_from-append :
    (a b xs ys : List ℕ) (i n : ℕ)
    → i + n ≤ length a
    → i + n ≤ length b
    → strcmp_from (a ++ xs) (b ++ ys) i n ≡ strcmp_from a b i n
unfolding strcmp_from
strcmp_from-append a b xs ys i zero ha hb = refl
strcmp_from-append a b xs ys i (suc n) ha hb = rw (
  get_or-append a xs i 0 (omega arith),
  get_or-append b ys i 0 (omega arith),
  strcmp_from-append a b xs ys (i + 1) n (omega arith) (omega arith),
)

-- `strcmp(a, b, len)` does not depend on what follows the first `len` bytes of either array.
pub strcmp-append :
    (a b xs ys : List ℕ) (len : ℕ)
    → len ≤ length a
    → len ≤ length b
    → strcmp (a ++ xs) (b ++ ys) len ≡ strcmp a b len
unfolding strcmp
strcmp-append a b xs ys len ha hb = strcmp_from-append a b xs ys 0 len (omega arith) (omega arith)

strlen_from-append :
    (a xs : List ℕ) (i n : ℕ) → i + n ≤ length a → strlen_from (a ++ xs) i n ≡ strlen_from a i n
unfolding strlen_from
strlen_from-append a xs i zero h = refl
strlen_from-append a xs i (suc n) h =
    rw (get_or-append a xs i 0 (omega arith), strlen_from-append a xs (i + 1) n (omega arith))

-- `strlen(s, max_len)` does not depend on what follows the first `max_len` bytes.
pub strlen-append :
    (s xs : List ℕ) (max_len : ℕ) → max_len ≤ length s → strlen (s ++ xs) max_len ≡ strlen s max_len
unfolding strlen
strlen-append s xs max_len h = strlen_from-append s xs 0 max_len (omega arith)

prefix→rest : (p s : List ℕ) → prefix p s ≡ true → (rest : List ℕ) × (s ≡ p ++ rest)
prefix→rest [] s h = (s, refl)
prefix→rest (c ∷ p) [] h = absurd (ground arith)
prefix→rest (c ∷ p) (d ∷ s) h =
    let parts = &&_parts (c == d) (prefix p s) h in
    let (rest, e) = prefix→rest p s parts.1 in (rest, ap₂ ◌∷◌ (sym ((==_iff c d).0 parts.0)) e)

prefix-append : (p rest : List ℕ) → prefix p (p ++ rest) ≡ true
prefix-append [] rest = refl
prefix-append (c ∷ p) rest = rw ((==_iff c c).1 refl) (prefix-append p rest)

strcmp_from_range :
    (a b : List ℕ) (i n : ℕ) → (strcmp_from a b i n ≡ pos 0) ⊎ (strcmp_from a b i n ≡ pos 1)
unfolding strcmp_from
strcmp_from_range a b i zero = inl refl
strcmp_from_range a b i (suc n) = ground (arith, strcmp_from_range a b (i + 1) n)

strcmp_zero_iff : (a b : List ℕ) (n : ℕ) → (strcmp a b n ≡ pos 0) ↔ (is_zero (strcmp a b n) ≡ true)
unfolding strcmp
strcmp_zero_iff a b n =
    (λ e. rw e, λ z. elim (strcmp_from_range a b 0 n) [ inl e ↦ e | inr e ↦ cc ])

-- The test that decides whether an entry `p` of a list names `b`: `strcmp(p, b, strlen(p,
-- max_len))` is 0 exactly if the C string `b` is the C string in the first `max_len` bytes of `p`
-- followed by anything.
pub strcmp-strlen_iff :
    (p b : List ℕ) (max_len : ℕ)
    → (strcmp p b (strlen p max_len) ≡ pos 0)
      ↔ ((rest : List ℕ) × (cstring b ≡ cstring (take max_len p) ++ rest))
strcmp-strlen_iff p b max_len = (
  λ e. prefix→rest _ _ (sym (strcmp-strlen p b max_len) ∙ (strcmp_zero_iff p b _).0 e),
  λ r.
      (strcmp_zero_iff p b _).1
        (strcmp-strlen p b max_len ∙ rw r.1 (prefix-append (cstring (take max_len p)) r.0)),
)
