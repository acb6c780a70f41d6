-- ===== src/Audit/Dns/Names.antt =====
-- pkg/audit/network/fqdn.go: fully qualified names, and the order in which servers are asked.
use bouheki.Prelude.{
  ℕ, ◌≡◌, refl, sym, ap, ◌∙◌, List, [], ◌∷◌, ◌++◌, none, some, ◌==◌, ==_iff, Bool-cases, ◌⊎◌, inl,
  inr,
}
use bouheki.Audit.Dns.{Client, Response, exchange_from, last_byte, to_fqdn, with_port}

last_byte-append : (b : ℕ) (bytes : List ℕ) (c : ℕ) → last_byte b (bytes ++ c ∷ []) ≡ c
last_byte-append b [] c = refl
last_byte-append b (x ∷ bytes) c = last_byte-append x bytes c

pub some-injective : {x y : List ℕ} → some x ≡ some y → x ≡ y
some-injective {x} e = ap (λ o. elim o as (λ u. List ℕ) [ none ↦ x | some z ↦ z ]) e

-- A text with the last byte `c` is the text before it and `c`.
last_byte-split :
    (b : ℕ) (bytes : List ℕ) (c : ℕ)
    → last_byte b bytes ≡ c
    → (base : List ℕ) × (b ∷ bytes ≡ base ++ c ∷ [])
last_byte-split b [] c e = ([], ap (λ x. x ∷ []) e)
last_byte-split b (x ∷ bytes) c e =
    let rest = last_byte-split x bytes c e in (b ∷ rest.0, ap (◌∷◌ b) rest.1)

-- The fully qualified name of a domain ends with a dot, is the domain or the domain with a dot
-- behind it, and is its own fully qualified name.
pub to_fqdn-to_fqdn :
    (domain name : List ℕ)
    → to_fqdn domain ≡ some name
    → ((base : List ℕ) × (name ≡ base ++ b'.' ∷ []))
      × ((name ≡ domain) ⊎ (name ≡ domain ++ b'.' ∷ []))
      × (to_fqdn name ≡ some name)
unfolding to_fqdn
to_fqdn-to_fqdn [] name h = absurd (cc h)
to_fqdn-to_fqdn (b ∷ bytes) name h = elim (Bool-cases (last_byte b bytes == b'.')) [
  | inl dotted ↦
      let e = some-injective (rw (dotted, to_fqdn) at h) in
      let split = last_byte-split b bytes b'.' ((==_iff _ _).0 dotted) in
      ((split.0, sym e ∙ split.1), inl (sym e), rw (← e) (rw dotted))
  | inr bare ↦
      let e = some-injective (rw (bare, to_fqdn) at h) in
      ((b ∷ bytes, sym e), inr (sym e), rw (← e) (rw (last_byte-append b bytes b'.')))
]

module _ {W : Type 0} (client : Client W) where
  -- None of the servers answers; the world ends up as `w'`.
  pub data Silent (name : List ℕ) (record_type : ℕ) : List (List ℕ) → W → W → Type 0 where
    nobody : (w : W) → Silent name record_type [] w w
    no_answer :
        (server : List ℕ) (servers : List (List ℕ)) (w w' : W)
        → (client.exchange w name record_type (with_port server)).0 ≡ none
        → Silent name record_type servers
            (client.exchange w name record_type (with_port server)).1
            w'
        → Silent name record_type (server ∷ servers) w w'

  -- The first server that answers is taken, however many before it fail; the ones behind it are not
  -- asked.
  pub exchange_from-Silent :
      (name : List ℕ) (record_type : ℕ) (before : List (List ℕ)) (server : List ℕ)
      (after : List (List ℕ)) (w w' : W) (res : Response)
      → Silent name record_type before w w'
      → (client.exchange w' name record_type (with_port server)).0 ≡ some res
      → exchange_from client (before ++ server ∷ after) name record_type w
        ≡ (some res, (client.exchange w' name record_type (with_port server)).1)
  unfolding exchange_from
  exchange_from-Silent name record_type before server after w w' res (nobody v) answered =
      rw (answered, exchange_from)
  exchange_from-Silent name record_type before server after w w' res
        (no_answer s ss v v' no_res rest) answered =
      rw (no_res, exchange_from)
        (exchange_from-Silent name record_type ss server after _ w' res rest answered)
