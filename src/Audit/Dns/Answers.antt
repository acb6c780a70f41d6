-- ===== src/Audit/Dns/Answers.antt =====
-- pkg/audit/network/fqdn.go: what an answer holds of the records of a response.
use bouheki.Prelude.{
  ℕ, ◌≡◌, refl, ap, ◌∙◌, List, [], ◌∷◌, ◌++◌, not, Option, none, some, if◌then◌else◌, ◌==◌,
  Bool-cases, inl, inr,
}
use mathlib.Core.List.{append_assoc, append-nil}
use bouheki.Audit.Dns.{
  DnsAnswer, Record, Response, Rr, a, aaaa, add_record, answer_of, collect, empty_answer, failed,
  found_addresses, other_record, rcode_success, returned, type_a, type_aaaa,
}

-- The address of a record of the given type.
abbrev pub address_in : ℕ → Rr → Option (List ℕ)
address_in record_type rr = elim rr.rdata [
  | a address ↦ if record_type == type_a then some address else none
  | aaaa address ↦ if record_type == type_aaaa then some address else none
  | other_record ↦ none
]

abbrev pub cons_some : Option (List ℕ) → List (List ℕ) → List (List ℕ)
cons_some none addresses = addresses
cons_some (some address) addresses = address ∷ addresses

-- The addresses of the records of the given type, in their order.
abbrev pub addresses_of : ℕ → List Rr → List (List ℕ)
addresses_of record_type [] = []
addresses_of record_type (rr ∷ rrs) =
    cons_some (address_in record_type rr) (addresses_of record_type rrs)

abbrev pub ttl_or : Option (List ℕ) → ℕ → ℕ → ℕ
ttl_or none ttl ttl' = ttl
ttl_or (some address) ttl ttl' = ttl'

-- The time to live of the last of these records.
abbrev pub last_ttl : ℕ → ℕ → List Rr → ℕ
last_ttl record_type ttl [] = ttl
last_ttl record_type ttl (rr ∷ rrs) =
    last_ttl record_type (ttl_or (address_in record_type rr) ttl rr.ttl) rrs

abbrev extended : DnsAnswer → Rr → Option (List ℕ) → DnsAnswer
extended answer rr none = answer
extended answer rr (some address) = record {
  domain = answer.domain;
  addresses = answer.addresses ++ address ∷ [];
  ttl = rr.ttl;
}

add_record_lem :
    (record_type : ℕ) (answer : DnsAnswer) (rr : Rr)
    → add_record record_type answer rr ≡ extended answer rr (address_in record_type rr)
add_record_lem record_type answer rr = by_rdata record_type answer rr.ttl rr.rrtype rr.rdata
  where
    by_rdata :
        (record_type : ℕ) (answer : DnsAnswer) (ttl rrtype : ℕ) (rdata : Record)
        → add_record record_type answer (record { rrtype = rrtype; ttl = ttl; rdata = rdata })
          ≡ extended answer
              (record { rrtype = rrtype; ttl = ttl; rdata = rdata })
              (address_in record_type (record { rrtype = rrtype; ttl = ttl; rdata = rdata }))
    by_rdata record_type answer ttl rrtype (a address) = elim (Bool-cases (record_type == type_a)) [
      | inl same ↦ rw same
      | inr differ ↦ rw differ
    ]
    by_rdata record_type answer ttl rrtype (aaaa address) =
        elim (Bool-cases (record_type == type_aaaa)) [ inl same ↦ rw same | inr differ ↦ rw differ ]
    by_rdata record_type answer ttl rrtype other_record = refl

collect-extended :
    (record_type : ℕ) (answer : DnsAnswer) (rr : Rr) (rrs : List Rr) (o : Option (List ℕ))
    → ((answer : DnsAnswer)
        → collect record_type answer rrs ≡ record {
          domain = answer.domain;
          addresses = answer.addresses ++ addresses_of record_type rrs;
          ttl = last_ttl record_type answer.ttl rrs;
        })
    → collect record_type (extended answer rr o) rrs ≡ record {
      domain = answer.domain;
      addresses = answer.addresses ++ cons_some o (addresses_of record_type rrs);
      ttl = last_ttl record_type (ttl_or o answer.ttl rr.ttl) rrs;
    }
collect-extended record_type answer rr rrs none rest = rest answer
collect-extended record_type answer rr rrs (some address) rest =
    rest _ ∙ rw (append_assoc answer.addresses (address ∷ []) (addresses_of record_type rrs)) refl

-- The loop of Resolve collects the addresses of the asked type behind what it has.
collect_lem :
    (record_type : ℕ) (rrs : List Rr) (answer : DnsAnswer)
    → collect record_type answer rrs ≡ record {
      domain = answer.domain;
      addresses = answer.addresses ++ addresses_of record_type rrs;
      ttl = last_ttl record_type answer.ttl rrs;
    }
unfolding collect
collect_lem record_type [] answer = rw (append-nil answer.addresses) refl
collect_lem record_type (rr ∷ rrs) answer =
    ap (λ answer. collect record_type answer rrs) (add_record_lem record_type answer rr)
    ∙ collect-extended record_type answer rr rrs (address_in record_type rr)
        (collect_lem record_type rrs)

-- From a response, an error results exactly if its code is not success or it has no record of the
-- asked type; otherwise the answer holds the addresses of all records of that type, in their order,
-- with the time to live of the last of them.
pub answer_of_lem :
    (host : List ℕ) (record_type : ℕ) (res : Response)
    → answer_of host record_type res ≡ (
        if not (res.rcode == rcode_success)
        then failed
        else if found_addresses (addresses_of record_type res.answer)
        then returned (record {
          domain = host;
          addresses = addresses_of record_type res.answer;
          ttl = last_ttl record_type 0 res.answer;
        })
        else failed)
unfolding answer_of
answer_of_lem host record_type res = rw (collect_lem record_type res.answer (empty_answer host))
