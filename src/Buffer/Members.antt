-- ===== src/Buffer/Members.antt =====
-- What a member holds after a sequence of assignments to the members of an object.
use bouheki.Prelude.{
  ℕ, ◌+◌, ◌≤◌, leb→le, ◌≡◌, refl, ◌∙◌, Bool, true, ◌&&◌, ◌||◌, List, [], ◌∷◌, ◌++◌, String, arith,
  leb, length, Bool-cases, &&_parts, inl, inr,
}
use native.Mathlib.Nat.{le_trans}
use bouheki.CType.{CType}
use bouheki.Buffer.{
  offset_of, size_of, Assignment, assign, get_member, set_member, read_at, write_at,
}
use bouheki.Buffer.Bytes.{
  length-write_at, read_at-write_at, read_at-write_at_before, read_at-write_at_after,
}

-- Each assignment writes as many bytes as its member has.
abbrev pub Fits : CType → List Assignment → Type 0
Fits t [] = Unit
Fits t ((q, bs) ∷ rest) = (length bs ≡ size_of t q) × Fits t rest

-- None of the assignments touches the member.
abbrev pub apart : CType → List String → List Assignment → Bool
apart t p [] = true
apart t p ((q, bs) ∷ rest) =
    (leb (offset_of t p + size_of t p) (offset_of t q)
      || leb (offset_of t q + size_of t q) (offset_of t p))
    && apart t p rest

pub length-assign :
    (t : CType) (steps : List Assignment) (obj : List ℕ) → length (assign t steps obj) ≡ length obj
length-assign t [] obj = refl
length-assign t ((q, bs) ∷ rest) obj =
    length-assign t rest (set_member t q bs obj) ∙ length-write_at (offset_of t q) bs obj

read_at-write_at_apart :
    (o n w : ℕ) (bs obj : List ℕ)
    → (leb (o + n) w || leb (w + length bs) o) ≡ true
    → read_at o n (write_at w bs obj) ≡ read_at o n obj
read_at-write_at_apart o n w bs obj h = elim (Bool-cases (leb (o + n) w)) [
  | inl in_front ↦ read_at-write_at_before o n w bs obj (ground arith)
  | inr not_in_front ↦ read_at-write_at_after o n w bs obj (ground arith)
]

get-assign-apart :
    (t : CType) (p : List String) (steps : List Assignment) (obj : List ℕ)
    → Fits t steps
    → apart t p steps ≡ true
    → get_member t p (assign t steps obj) ≡ get_member t p obj
get-assign-apart t p [] obj f h = refl
get-assign-apart t p ((q, bs) ∷ rest) obj f h =
    get-assign-apart t p rest (set_member t q bs obj) f.1 (&&_parts _ _ h).1
    ∙ read_at-write_at_apart (offset_of t p) (size_of t p) (offset_of t q) bs obj
        (rw f.0 (&&_parts _ _ h).0)

-- A member holds what was assigned to it last, if the later assignments do not touch it.
pub get-assign :
    (t : CType) (before : List Assignment) (p : List String) (bs : List ℕ) (after : List Assignment)
    (obj : List ℕ)
    → length bs ≡ size_of t p
    → Fits t after
    → apart t p after ≡ true
    → offset_of t p + size_of t p ≤ length obj
    → get_member t p (assign t (before ++ (p, bs) ∷ after) obj) ≡ bs
get-assign t [] p bs after obj e f h fits =
    get-assign-apart t p after (set_member t p bs obj) f h
    ∙ rw (← e) (read_at-write_at (offset_of t p) bs obj (omega arith))
get-assign t ((q, cs) ∷ before) p bs after obj e f h fits =
    get-assign t before p bs after (set_member t q cs obj) e f h
      (rw (length-write_at (offset_of t q) cs obj) fits)

-- Every member in the list holds its bytes.
abbrev pub Holds : CType → List Assignment → List ℕ → Type 0
Holds t [] obj = Unit
Holds t ((q, bs) ∷ rest) obj = (get_member t q obj ≡ bs) × Holds t rest obj

-- No assignment touches the member of an earlier one, and all members lie in the first `n` bytes.
abbrev pub well_placed : CType → List Assignment → ℕ → Bool
well_placed t [] n = true
well_placed t ((q, bs) ∷ rest) n =
    leb (offset_of t q + size_of t q) n && (apart t q rest && well_placed t rest n)

-- After a sequence of well-placed assignments every member holds what was assigned to it.
pub assign-Holds :
    (t : CType) (steps : List Assignment) (n : ℕ) (obj : List ℕ)
    → Fits t steps
    → well_placed t steps n ≡ true
    → n ≤ length obj
    → Holds t steps (assign t steps obj)
assign-Holds t [] n obj f h fits = tt
assign-Holds t ((q, bs) ∷ rest) n obj f h fits = (
  get-assign t [] q bs rest obj f.0 f.1 (&&_parts _ _ (&&_parts _ _ h).1).0
      (le_trans (leb→le _ _ (&&_parts _ _ h).0) fits),
  assign-Holds t rest n (set_member t q bs obj) f.1 (&&_parts _ _ (&&_parts _ _ h).1).1
      (rw (length-write_at (offset_of t q) bs obj) fits),
)
