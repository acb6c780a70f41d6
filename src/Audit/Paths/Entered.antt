-- ===== src/Audit/Paths/Entered.antt =====
-- What the list of paths of a map names, after pkg/audit has written it.
use bouheki.Prelude.{
  ℕ, zero, suc, ◌+◌, ◌%◌, ◌≤◌, ◌<◌, ◌≡◌, refl, sym, ap, ap₂, ◌∙◌, List, [], ◌∷◌, ◌++◌, Bool, true,
  false, ◌||◌, if◌then◌else◌, ◌==◌, take, length, map, arith, String, Bool-cases, inl, inr, Option,
  none, some,
}
use mathlib.Core.List.{append_assoc, append-nil}
use bouheki.Buffer.{from_le_bytes, le_bytes, read_at}
use bouheki.Kernel.Search.{any_value}
use bouheki.Common.Strings.{cstring, prefix}
use bouheki.Audit.Dns.{Result, failed, returned}
use bouheki.Audit.Paths.{
  Behind, Entries, MapLib, Restriction, is_restricted, key_size, mode_and_target, only_containers,
  path_size, put_entry, set_mode_and_target, set_path_map, set_paths,
}

-- The bytes of a path in the configuration: none is NUL.
abbrev pub NoNul : List ℕ → Type 0
NoNul [] = Unit
NoNul (c ∷ path) = ((c == 0) ≡ false) × NoNul path

abbrev pub ArePaths : List (List ℕ) → Type 0
ArePaths [] = Unit
ArePaths (path ∷ paths) = NoNul path × ArePaths paths

-- The key of a round, with the bytes that follow its variable in memory.
abbrev pub key_at : Behind → ℕ → List ℕ
key_at behind i = i ∷ take 3 (behind.key i)

-- The entries that a loop from `i` on writes.
abbrev pub entered : Behind → ℕ → List (List ℕ) → Entries
entered behind i [] = []
entered behind i (path ∷ paths) =
    (key_at behind i, take path_size (path ++ behind.value i)) ∷ entered behind (i + 1) paths

-- The keys are those of rounds before `i`.
abbrev KeysBefore : Behind → ℕ → Entries → Type 0
KeysBefore behind i [] = Unit
KeysBefore behind i ((k, v) ∷ entries) =
    ((j : ℕ) × (k ≡ key_at behind j) × (j < i)) × KeysBefore behind i entries

put_entry-new :
    (behind : Behind) (i : ℕ) (value : List ℕ) (entries : Entries)
    → KeysBefore behind i entries
    → put_entry (key_at behind i) value entries ≡ entries ++ (key_at behind i, value) ∷ []
put_entry-new behind i value [] h = refl
put_entry-new behind i value ((k, v) ∷ entries) ((j, e, lt), h) =
    let differ : (j == i) ≡ false = ground arith in
    rw (e, differ) (ap (◌∷◌ (key_at behind j, v)) (put_entry-new behind i value entries h))

KeysBefore-append :
    (behind : Behind) (i : ℕ) (value : List ℕ) (entries : Entries)
    → KeysBefore behind i entries
    → KeysBefore behind (i + 1) (entries ++ (key_at behind i, value) ∷ [])
KeysBefore-append behind i value [] h = ((i, refl, omega arith), tt)
KeysBefore-append behind i value ((k, v) ∷ entries) ((j, e, lt), h) =
    ((j, e, omega arith), KeysBefore-append behind i value entries h)

if_returned :
    (b : Bool) (x : Result (Unit {0}) × Entries) (entries : Entries)
    → (if b then x else (failed, entries)).0 ≡ returned tt
    → ((if b then x else (failed, entries)) ≡ x) × (x.0 ≡ returned tt)
if_returned true x entries h = (refl, h)
if_returned false x entries h = absurd (cc h)

set_paths-entered :
    (lib : MapLib) (behind : Behind) (i : ℕ) (paths : List (List ℕ)) (entries : Entries)
    → KeysBefore behind i entries
    → i + length paths ≤ 256
    → (set_paths lib behind i paths entries).0 ≡ returned tt
    → (set_paths lib behind i paths entries).1 ≡ entries ++ entered behind i paths
unfolding set_paths
set_paths-entered lib behind i [] entries h few done = sym (append-nil entries)
set_paths-entered lib behind i ([] ∷ paths) entries h few done = absurd (cc done)
set_paths-entered lib behind i ((b ∷ path) ∷ paths) entries h few done =
    let value = take path_size ((b ∷ path) ++ behind.value i) in
    let key : take key_size ((i % 256) ∷ behind.key i) ≡ key_at behind i =
      ap (λ b. b ∷ take 3 (behind.key i)) (omega arith) in
    let r =
      if_returned (lib.update entries (take key_size ((i % 256) ∷ behind.key i)) value) _ entries
        done in
    let put : put_entry (take key_size ((i % 256) ∷ behind.key i)) value entries
        ≡ entries ++ (key_at behind i, value) ∷ [] =
      ap (λ k. put_entry k value entries) key ∙ put_entry-new behind i value entries h in
    ap (λ r. r.1) r.0
    ∙ (ap (λ es. (set_paths lib behind (i + 1) paths es).1) put
        ∙ (set_paths-entered lib behind (i + 1) paths (entries ++ (key_at behind i, value) ∷ [])
              (KeysBefore-append behind i value entries h) (omega arith)
              (sym (ap (λ es. (set_paths lib behind (i + 1) paths es).0) put) ∙ r.1)
            ∙ append_assoc entries ((key_at behind i, value) ∷ []) (entered behind (i + 1) paths)))

-- Without an error, an empty map holds an entry for each path, in their order.
pub set_path_map-entered :
    (lib : MapLib) (map_name : String) (behind : Behind) (paths : List (List ℕ))
    → length paths ≤ 256
    → (set_path_map lib map_name behind paths []).0 ≡ returned tt
    → (set_path_map lib map_name behind paths []).1 ≡ entered behind 0 paths
unfolding set_path_map
set_path_map-entered lib map_name behind paths few done =
    let r = if_returned (lib.get_map map_name) _ [] done in
    ap (λ r. r.1) r.0 ∙ set_paths-entered lib behind 0 paths [] tt (omega (arith, few)) r.1

cstring-cut : (n : ℕ) (bytes : List ℕ) → cstring (take n (take n bytes)) ≡ take n (cstring bytes)
cstring-cut zero bytes = refl
cstring-cut (suc n) [] = refl
cstring-cut (suc n) (x ∷ bytes) = elim (Bool-cases (x == 0)) [
  | inl nul ↦ rw nul
  | inr other ↦ rw other (ap (◌∷◌ x) (cstring-cut n bytes))
]

-- A value reads as its path with the bytes that follow the path in memory up to a NUL, cut to the
-- size of the value.
cstring-value :
    (path behind : List ℕ) (n : ℕ)
    → NoNul path
    → cstring (take n (take n (path ++ behind))) ≡ take n (path ++ cstring behind)
cstring-value path behind zero h = refl
cstring-value [] behind (suc n) h = cstring-cut (suc n) behind
cstring-value (c ∷ path) behind (suc n) h = rw (h.0) (ap (◌∷◌ c) (cstring-value path behind n h.1))

-- What the entry of a round stands for: the path, and what follows it in memory up to a NUL, cut to
-- 255 bytes. If a NUL follows the path, this is the path.
abbrev pub written_path : Behind → ℕ → List ℕ → List ℕ
written_path behind i path = take path_size (path ++ cstring (behind.value i))

-- An entry of the rounds from `i` on is the beginning of the text.
abbrev pub names_path : Behind → ℕ → List (List ℕ) → List ℕ → Bool
names_path behind i [] text = false
names_path behind i (path ∷ paths) text =
    prefix (written_path behind i path) (cstring text) || names_path behind (i + 1) paths text

-- The entries name what the written paths name.
pub any_value-entered :
    {V : Type 0}
    → (make : List ℕ → V) (hit : V → Bool) (behind : Behind) (text : List ℕ)
    → ((value : List ℕ) → hit (make value) ≡ prefix (cstring (take path_size value)) (cstring text))
    → (i : ℕ) (paths : List (List ℕ)) → ArePaths paths
    → (decode : List ℕ → ℕ)
    → any_value hit (map (λ e. (decode e.0, make e.1)) (entered behind i paths))
      ≡ names_path behind i paths text
any_value-entered make hit behind text h i [] are decode = refl
any_value-entered make hit behind text h i (path ∷ paths) are decode =
    ap₂ ◌||◌
      (h (take path_size (path ++ behind.value i))
        ∙ ap (λ p. prefix p (cstring text)) (cstring-value path (behind.value i) path_size are.0))
      (any_value-entered make hit behind text h (i + 1) paths are.1 decode)

-- A lookup with the key `i`.
abbrev pub lookup_value : Entries → ℕ → Option (List ℕ)
lookup_value [] i = none
lookup_value ((key, value) ∷ entries) i =
    if from_le_bytes key == i then some value else lookup_value entries i

-- The entries as the programs see them, in the order in which they were written.
abbrev pub seen : {V : Type 0} → (List ℕ → V) → Entries → List (ℕ × V)
seen make entries = map (λ e. (from_le_bytes e.0, make e.1)) entries

-- Mode and target as integers at the offsets 0 and 4.
pub mode_and_target-read :
    (r : Restriction)
    → (from_le_bytes (read_at 0 4 (mode_and_target r)) ≡ (if is_restricted r then 1 else 0))
      × (from_le_bytes (read_at 4 4 (mode_and_target r)) ≡ (if only_containers r then 1 else 0))
unfolding mode_and_target from_le_bytes le_bytes
mode_and_target-read r = (
  elim (Bool-cases (is_restricted r)) [ inl block ↦ rw block | inr monitor ↦ rw monitor ],
  elim (Bool-cases (only_containers r)) [ inl container ↦ rw container | inr host ↦ rw host ],
)

-- Whether the program finds the configuration, given the bytes in memory behind the variable of one
-- byte that setModeAndTarget passes as its key: the four bytes are the number 0.
abbrev pub finds_config : List ℕ → Bool
finds_config behind = from_le_bytes (take key_size (0 ∷ behind)) == 0

-- Without an error, a lookup with the key 0 finds mode and target, if it finds anything.
pub lookup_value-set_mode_and_target :
    (lib : MapLib) (map_name : String) (behind : List ℕ) (r : Restriction)
    → (set_mode_and_target lib map_name behind r []).0 ≡ returned tt
    → lookup_value (set_mode_and_target lib map_name behind r []).1 0
      ≡ (if finds_config behind then some (mode_and_target r) else none)
unfolding set_mode_and_target
lookup_value-set_mode_and_target lib map_name behind r done =
    let found = if_returned (lib.get_map map_name) _ [] done in
    let updated =
      if_returned (lib.update [] (take key_size (0 ∷ behind)) (mode_and_target r)) _ [] found.1 in
    ap (λ x. lookup_value x.1 0) (found.0 ∙ updated.0)
