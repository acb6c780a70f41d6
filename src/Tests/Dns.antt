-- ===== src/Tests/Dns.antt =====
-- Domains on a concrete network: one server is down, the other one has an address of example.com.
use mathlib.Core.List.{mem-cons_self}
use bouheki.Prelude.{
  ℕ, ◌≡◌, refl, List, [], ◌∷◌, ◌++◌, true, false, none, some, if◌then◌else◌, inl, inr, ◌⊎◌, arith,
  not, ◌==◌, take, replicate, zero, suc,
}
use bouheki.Audit.Network.Ip.{AreBytes, bytes_eq, to4, v4_in_v6_prefix}
use bouheki.Audit.Network.Trie.{any}
use bouheki.Audit.Network.Manager.{RestrictedNetworkConfig}
use bouheki.Audit.Network.Cidr.{
  allowed_v4_cidr_list_map_name, cidr_list_update, update_addresses, update_allowed_fqdn_list,
}
use bouheki.Audit.Network.Covered.{search}
use bouheki.Audit.Dns.{
  Client, DnsAnswer, Response, a, answer_of, collect, exchange_from, failed, found_addresses,
  other_record, rcode_success, resolve, returned, to_fqdn, type_a, with_port,
}
use bouheki.Audit.Dns.Wire.{AreAddresses, IsIp, plain}
use bouheki.Audit.Dns.Answers.{addresses_of, answer_of_lem, last_ttl}
use bouheki.Audit.Dns.Async.{Step, Steps, Steps-keep, resolved_stays_allowed}
use bouheki.Audit.Dns.Names.{Silent, exchange_from-Silent, to_fqdn-to_fqdn}
use bouheki.Audit.Dns.Proxy.{
  DnsProxyConfig, Question, answers_from, cached, dns_response_to_dns_answer, serve_dns, validate,
}
use bouheki.Audit.Dns.Served.{NotEmpty, is_fqdn_of, serve_dns-returned}
use bouheki.Audit.Dns.Allowed.{serve_dns-allowed}
use bouheki.Audit.Dns.Update.{State, resolve_and_update_allowed_fqdn_list}
use bouheki.Audit.Deployed.Filled.{nothing}
use bouheki.Tests.Deployed.{config, lib, trie, trie-IsTrie}

-- "example.com"
abbrev example : List ℕ
example = b'e' ∷ b'x' ∷ b'a' ∷ b'm' ∷ b'p' ∷ b'l' ∷ b'e' ∷ b'.' ∷ b'c' ∷ b'o' ∷ b'm' ∷ []

abbrev example_fqdn : List ℕ
example_fqdn = example ++ b'.' ∷ []

abbrev down : List ℕ
down = b'a' ∷ []

abbrev up : List ℕ
up = b'b' ∷ []

abbrev address : List ℕ
address = 1 ∷ 187 ∷ 0 ∷ 9 ∷ []

-- The address as the library writes it, with 16 bytes.
abbrev written : List ℕ
written = v4_in_v6_prefix ++ address

abbrev response : Response
response = record {
  rcode = 0;
  answer =
      record { rrtype = 5; ttl = 300; rdata = other_record }
      ∷ record { rrtype = 1; ttl = 60; rdata = a written }
      ∷ [];
}

abbrev client : Client (Unit {0})
client = record {
  exchange = λ w name record_type server.
      (if bytes_eq server (with_port up) then some response else none, w);
}

-- example.com is allowed.
abbrev domains : RestrictedNetworkConfig
domains = record config { allow_domains = example ∷ [] }

abbrev state : State (Unit {0})
state = record { entry = none; store = nothing; world = tt }

abbrev answer : DnsAnswer
answer = record { domain = example; addresses = written ∷ []; ttl = 60 }

to_fqdn-to_fqdn_example :
    ((base : List ℕ) × (example_fqdn ≡ base ++ b'.' ∷ []))
    × ((example_fqdn ≡ example) ⊎ (example_fqdn ≡ example ++ b'.' ∷ []))
    × (to_fqdn example_fqdn ≡ some example_fqdn)
unfolding to_fqdn
to_fqdn-to_fqdn_example = to_fqdn-to_fqdn example example_fqdn refl

exchange_from-Silent_example :
    exchange_from client (down ∷ up ∷ []) example_fqdn type_a tt ≡ (some response, tt)
exchange_from-Silent_example =
    exchange_from-Silent client example_fqdn type_a (down ∷ []) up [] tt tt response
      (Silent.no_answer down [] tt tt refl (Silent.nobody tt)) refl

answer_of_lem_example : answer_of example type_a response ≡ (
    if not (response.rcode == rcode_success)
    then failed
    else if found_addresses (addresses_of type_a response.answer)
    then returned (record {
      domain = example;
      addresses = addresses_of type_a response.answer;
      ttl = last_ttl type_a 0 response.answer;
    })
    else failed)
answer_of_lem_example = answer_of_lem example type_a response

address-AreBytes : AreBytes address
address-AreBytes = (omega arith, (omega arith, (omega arith, (omega arith, tt))))

AreBytes-zeros : (n : ℕ) (xs : List ℕ) → AreBytes xs → AreBytes (replicate n 0 ++ xs)
AreBytes-zeros zero xs h = h
AreBytes-zeros (suc n) xs h = (omega arith, AreBytes-zeros n xs h)

written-IsIp : IsIp written
written-IsIp = (
  inr refl,
  AreBytes-zeros 10 (0xff ∷ 0xff ∷ address) ((omega arith, (omega arith, address-AreBytes))),
)

resolved : (resolve client (down ∷ up ∷ []) example type_a tt).0 ≡ returned answer
unfolding resolve to_fqdn exchange_from answer_of collect
resolved = refl

updated : (update_allowed_fqdn_list lib (written ∷ []) nothing).0 ≡ true
unfolding update_allowed_fqdn_list update_addresses cidr_list_update
updated = refl

abbrev round : State (Unit {0})
round = (resolve_and_update_allowed_fqdn_list lib client (down ∷ up ∷ []) example type_a state).1

-- After that round alone.
resolved_stays_allowed_example :
    search trie false (round.store allowed_v4_cidr_list_map_name) address ≡ true
unfolding to4
resolved_stays_allowed_example =
    resolved_stays_allowed lib client (down ∷ up ∷ []) domains trie example state round answer
      address trie-IsTrie resolved (written-IsIp, tt) updated refl address-AreBytes refl
      (Steps.stay round)

-- A key in the map of the allowed addresses.
abbrev one_key : State (Unit {0})
one_key = record { entry = none; store = λ name. (1 ∷ []) ∷ []; world = tt }

Steps-keep_example :
    any (bytes_eq (1 ∷ [])) (
      (resolve_and_update_allowed_fqdn_list lib client
          (down ∷ up ∷ [])
          example
          type_a
          one_key).1.store
        allowed_v4_cidr_list_map_name)
    ≡ true
Steps-keep_example =
    Steps-keep lib client (down ∷ up ∷ []) domains one_key
      (resolve_and_update_allowed_fqdn_list lib client (down ∷ up ∷ []) example type_a one_key).1
      (bytes_eq (1 ∷ [])) allowed_v4_cidr_list_map_name
      (Steps.then_step one_key _ _
        (Step.allowed_round example type_a one_key mem-cons_self (inl refl)) (Steps.stay _))
      refl

abbrev proxy : DnsProxyConfig
proxy = record { enable = true; upstreams = up ∷ []; bind_addresses = [] }

abbrev question : Question
question = record { name = example_fqdn; qtype = type_a }

-- IP.String, here a text that tells addresses apart
abbrev ip_string : List ℕ → List ℕ
ip_string address = address

is_valid : validate proxy ≡ true
unfolding validate
is_valid = refl

no_empty_domain : NotEmpty domains.allow_domains
unfolding to_fqdn
no_empty_domain = (refl, tt)

-- SetReply, as it treats the questions
abbrev set_reply : List Question → List Question
set_reply questions = take 1 questions

serve_dns-returned_example :
    (serve_dns lib client ip_string domains (up ∷ []) set_reply (question ∷ []) [] state).0
    ≡ returned tt
serve_dns-returned_example =
    serve_dns-returned lib client ip_string domains proxy set_reply (question ∷ []) [] state refl
      is_valid no_empty_domain tt (λ q questions. refl)

is_listed : any (is_fqdn_of example_fqdn) domains.allow_domains ≡ true
unfolding to_fqdn
is_listed = refl

the_addresses : AreAddresses (dns_response_to_dns_answer example_fqdn response).addresses
unfolding dns_response_to_dns_answer answers_from
the_addresses = (written-IsIp, tt)

proxy_updated :
    (update_allowed_fqdn_list lib
      (dns_response_to_dns_answer example_fqdn response).addresses
      nothing).0
    ≡ true
unfolding dns_response_to_dns_answer answers_from update_allowed_fqdn_list update_addresses
    cidr_list_update
proxy_updated = refl

among :
    any
      (λ x. bytes_eq (plain x) address)
      (dns_response_to_dns_answer example_fqdn response).addresses
    ≡ true
unfolding to4 dns_response_to_dns_answer answers_from
among = refl

among_texts :
    any
      (λ x. bytes_eq written (ip_string x))
      (dns_response_to_dns_answer example_fqdn response).addresses
    ≡ true
unfolding dns_response_to_dns_answer answers_from
among_texts = refl

serve_dns-allowed_example :
    (search trie false
        ((serve_dns lib client ip_string domains
            (up ∷ [])
            (λ qs. qs)
            (question ∷ [])
            []
            state).1.state.store
          allowed_v4_cidr_list_map_name)
        address
      ≡ true)
    × ((serve_dns lib client ip_string domains
          (up ∷ [])
          (λ qs. qs)
          (question ∷ [])
          []
          state).1.answers
        ≡ response.answer)
    × (cached written
          (serve_dns lib client ip_string domains
            (up ∷ [])
            (λ qs. qs)
            (question ∷ [])
            []
            state).1.dns_cache
        ≡ example_fqdn)
serve_dns-allowed_example =
    serve_dns-allowed lib client ip_string domains trie up [] (λ qs. qs) question question []
      response false address written [] state trie-IsTrie no_empty_domain tt refl refl is_listed
      the_addresses proxy_updated refl address-AreBytes among among_texts
