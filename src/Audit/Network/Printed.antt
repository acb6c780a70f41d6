-- ===== src/Audit/Network/Printed.antt =====
-- pkg/audit/network/audit.go and helper.go: what a log entry says of an event.
use mathlib.Core.List.{append-nil}
use bouheki.Prelude.{
  ℕ, ◌+◌, ◌-◌, ◌*◌, ◌/◌, ◌%◌, ◌<◌, ◌≡◌, refl, sym, ap, ◌∙◌, List, [], ◌∷◌, ◌++◌, Bool, true, false,
  if◌then◌else◌, ◌==◌, ltb, ◌⊎◌, inl, inr, Bool-cases, arith, map, ℤ, pos, negsuc,
}
use bouheki.Audit.Binary.{ReadError, read}
use bouheki.Audit.Network.{
  Body, DetectEvent, EventHeader, blocked_ipv4, blocked_ipv6, body_size, decode_header, decoded,
  decoded_body, detect_event_ipv4, detect_event_ipv6, equals, event_header_size, ip_v4_len,
  ip_v6_len, parse_event, with_header,
}
use bouheki.Audit.Network.Ip.{AreBytes}
use bouheki.Audit.Network.Log.{byte_to_ipv4, byte_to_ipv6, decimal, join, log_entry, new_audit_log}
use bouheki.Audit.Dns.{returned}
use bouheki.Audit.Dns.Proxy.{DnsCache}

abbrev is_ipv6 : DetectEvent → Bool
is_ipv6 (detect_event_ipv4 body) = false
is_ipv6 (detect_event_ipv6 body) = true

-- The body is of the type that the header says.
abbrev Fits : ReadError ⊎ (EventHeader × DetectEvent) → Type 0
Fits (inl err) = Unit
Fits (inr (header, body)) = equals header.event_type blocked_ipv6 ≡ is_ipv6 body

not_both : (t : ℤ) → equals t blocked_ipv4 ≡ true → equals t blocked_ipv6 ≡ false
not_both (pos n) h = ground arith
not_both (negsuc n) h = refl

decoded_body-Fits :
    (ip_len : ℕ) (make : Body → DetectEvent) (header : EventHeader)
    (r : ReadError ⊎ (List ℕ × List ℕ))
    → ((body : Body) → equals header.event_type blocked_ipv6 ≡ is_ipv6 (make body))
    → Fits (decoded_body ip_len make header r)
decoded_body-Fits ip_len make header (inl err) h = tt
decoded_body-Fits ip_len make header (inr (bytes, rest)) h = h _

Fits-if :
    (a b : Bool) (x y z : ReadError ⊎ (EventHeader × DetectEvent))
    → (a ≡ true → Fits x)
    → (b ≡ true → Fits y)
    → Fits z
    → Fits (if a then x else if b then y else z)
Fits-if true b x y z hx hy hz = hx refl
Fits-if false true x y z hx hy hz = hy refl
Fits-if false false x y z hx hy hz = hz

with_header-Fits : (header : EventHeader) (buf : List ℕ) → Fits (with_header header buf)
with_header-Fits header buf =
    Fits-if (equals header.event_type blocked_ipv4) (equals header.event_type blocked_ipv6) _ _ _
      (λ v4.
        decoded_body-Fits ip_v4_len detect_event_ipv4 header (read (body_size ip_v4_len) buf)
          (λ body. not_both header.event_type v4))
      (λ v6.
        decoded_body-Fits ip_v6_len detect_event_ipv6 header (read (body_size ip_v6_len) buf)
          (λ body. v6))
      refl

decoded-Fits : (r : ReadError ⊎ (List ℕ × List ℕ)) → Fits (decoded r)
decoded-Fits (inl err) = tt
decoded-Fits (inr (bytes, rest)) = with_header-Fits (decode_header bytes) rest

parse_event-Fits : (event_bytes : List ℕ) → Fits (parse_event event_bytes)
unfolding parse_event
parse_event-Fits event_bytes = decoded-Fits (read event_header_size event_bytes)

abbrev pub body_of : DetectEvent → Body
body_of (detect_event_ipv4 body) = body
body_of (detect_event_ipv6 body) = body

-- The destination as a text.
abbrev pub address_text : (List ℕ → List ℕ) → DetectEvent → List ℕ
address_text canonical (detect_event_ipv4 body) = byte_to_ipv4 body.dst_ip
address_text canonical (detect_event_ipv6 body) = canonical (byte_to_ipv6 body.dst_ip)

entry_of_fitting :
    (canonical : List ℕ → List ℕ) (dns_cache : DnsCache) (header : EventHeader) (body : DetectEvent)
    → Fits (inr (header, body))
    → new_audit_log canonical dns_cache header body
      ≡ returned (log_entry dns_cache header (body_of body) (address_text canonical body))
unfolding new_audit_log
entry_of_fitting canonical dns_cache header (detect_event_ipv4 body) fits = rw fits
entry_of_fitting canonical dns_cache header (detect_event_ipv6 body) fits = rw fits

-- Whatever bytes arrive, what parseEvent makes of them without an error becomes a log entry of its
-- header and its body, with the destination in the notation of its family: the assertion of the type
-- of the body never panics.
pub new_audit_log-parse_event :
    (canonical : List ℕ → List ℕ) (dns_cache : DnsCache) (event_bytes : List ℕ)
    (header : EventHeader) (body : DetectEvent)
    → parse_event event_bytes ≡ inr (header, body)
    → new_audit_log canonical dns_cache header body
      ≡ returned (log_entry dns_cache header (body_of body) (address_text canonical body))
new_audit_log-parse_event canonical dns_cache event_bytes header body parsed =
    entry_of_fitting canonical dns_cache header body (rw parsed at (parse_event-Fits event_bytes))

-- The numbers between the dots of a text, given the value of the digits before it.
abbrev pub numbers : ℕ → List ℕ → List ℕ
numbers acc [] = acc ∷ []
numbers acc (c ∷ text) =
    let next = numbers 0 text in
    let digits = numbers (acc * 10 + (c - b'0')) text in if c == b'.' then acc ∷ next else digits

numbers-digit :
    (acc d : ℕ) (text : List ℕ)
    → d < 10
    → numbers acc ((b'0' + d) ∷ text) ≡ numbers (acc * 10 + d) text
numbers-digit acc d text h =
    let other : ((b'0' + d) == b'.') ≡ false = ground arith in
    let value : b'0' + d - b'0' ≡ d = omega arith in rw (other, value)

numbers-decimal : (b : ℕ) (text : List ℕ) → b < 256 → numbers 0 (decimal b ++ text) ≡ numbers b text
numbers-decimal b text h = elim (Bool-cases (ltb b 10)) [
  | inl one ↦
      let lt : b < 10 = ground arith in
      rw one (numbers-digit 0 b text lt ∙ ap (λ n. numbers n text) (omega arith))
  | inr more ↦ elim (Bool-cases (ltb b 100)) [
    | inl two ↦
        let lt : b < 100 = ground arith in
        rw (more, two)
          (numbers-digit 0 (b / 10) ((b'0' + b % 10) ∷ text) (omega arith)
            ∙ (numbers-digit (0 * 10 + b / 10) (b % 10) text (omega arith)
                ∙ ap (λ n. numbers n text) (omega arith)))
    | inr three ↦
        rw (more, three)
          (numbers-digit 0 (b / 100) ((b'0' + b / 10 % 10) ∷ (b'0' + b % 10) ∷ text) (omega arith)
            ∙ (numbers-digit (0 * 10 + b / 100) (b / 10 % 10) ((b'0' + b % 10) ∷ text) (omega arith)
                ∙ (numbers-digit ((0 * 10 + b / 100) * 10 + b / 10 % 10) (b % 10) text (omega arith)
                    ∙ ap (λ n. numbers n text) (omega arith))))
  ]
]

numbers-join :
    (b : ℕ) (bytes : List ℕ)
    → AreBytes (b ∷ bytes)
    → numbers 0 (join b'.' (map decimal (b ∷ bytes))) ≡ b ∷ bytes
numbers-join b [] h = ap (numbers 0) (sym (append-nil (decimal b))) ∙ numbers-decimal b [] h.0
numbers-join b (b' ∷ bytes) h =
    numbers-decimal b (b'.' ∷ join b'.' (map decimal (b' ∷ bytes))) h.0
    ∙ ap (◌∷◌ b) (numbers-join b' bytes h.1)

-- An address that is printed with dots can be read back: its numbers are the bytes, in their order.
pub numbers-byte_to_ipv4 :
    (b : ℕ) (bytes : List ℕ)
    → AreBytes (b ∷ bytes)
    → numbers 0 (byte_to_ipv4 (b ∷ bytes)) ≡ b ∷ bytes
unfolding byte_to_ipv4
numbers-byte_to_ipv4 b bytes h = numbers-join b bytes h
