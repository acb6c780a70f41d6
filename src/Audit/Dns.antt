-- ===== src/Audit/Dns.antt =====
-- pkg/audit/network/fqdn.go: how domain names are resolved and their addresses written into the
-- tries. The library miekg/dns is a parameter: what an exchange with a server answers depends on a
-- state of the world, which it changes.
pub mod Update
pub mod Proxy
pub mod Answers
pub mod Names
pub mod Addresses
pub mod Async
pub mod Served
pub mod Wire
pub mod Allowed
use bouheki.Prelude.{
  ℕ, List, [], ◌∷◌, ◌++◌, Bool, true, false, ◌&&◌, ◌||◌, not, Option, none, some, if◌then◌else◌,
  ◌==◌, is_some,
}
use bouheki.Audit.Network.Setters.{Libbpf, Store}
use bouheki.Audit.Network.Cidr.{update_allowed_fqdn_list, update_denied_fqdn_list}

-- A value, an error, or the end of the process by a panic.
pub data Result (A : Type 0) : Type 0 where
  returned : A → Result A
  failed : Result A
  panicked : Result A

-- The types of records, as DNS numbers them, and the return code for success.
abbrev pub type_a : ℕ
type_a = 1

abbrev pub type_aaaa : ℕ
type_aaaa = 28

abbrev pub rcode_success : ℕ
rcode_success = 0

-- What a resource record is in Go: *dns.A, *dns.AAAA, or another type.
pub data Record : Type 0 where
  a : List ℕ → Record
  aaaa : List ℕ → Record
  other_record : Record

-- A resource record with the type and the time to live of its header.
pub record Rr : Type 0 where
  pub rrtype : ℕ
  pub ttl : ℕ
  pub rdata : Record

-- A response, as far as it is read.
pub record Response : Type 0 where
  pub rcode : ℕ
  pub answer : List Rr

-- dns.Client: the exchange of a question for a name and a type of records with a server.
pub record Client (W : Type 0) : Type 0 where
  pub exchange : W → List ℕ → ℕ → List ℕ → Option Response × W

-- type DNSAnswer
pub record DnsAnswer : Type 0 where
  pub domain : List ℕ
  pub addresses : List (List ℕ)
  pub ttl : ℕ

-- toFqdn; without a last byte, the slice is out of range.
abbrev pub last_byte : ℕ → List ℕ → ℕ
last_byte b [] = b
last_byte b (c ∷ bytes) = last_byte c bytes

unfoldable pub to_fqdn : List ℕ → Option (List ℕ)
to_fqdn [] = none
to_fqdn (b ∷ bytes) =
    if last_byte b bytes == b'.' then some (b ∷ bytes) else some ((b ∷ bytes) ++ b'.' ∷ [])

-- `server+":53"`
abbrev pub with_port : List ℕ → List ℕ
with_port server = server ++ b':' ∷ b'5' ∷ b'3' ∷ []

abbrev pub found_addresses : List (List ℕ) → Bool
found_addresses [] = false
found_addresses (address ∷ addresses) = true

-- One round of the loop of Resolve.
abbrev pub add_record : ℕ → DnsAnswer → Rr → DnsAnswer
add_record record_type answer rr = elim rr.rdata [
  | a address ↦
      if record_type == type_a
      then record {
        domain = answer.domain;
        addresses = answer.addresses ++ address ∷ [];
        ttl = rr.ttl;
      }
      else answer
  | aaaa address ↦
      if record_type == type_aaaa
      then record {
        domain = answer.domain;
        addresses = answer.addresses ++ address ∷ [];
        ttl = rr.ttl;
      }
      else answer
  | other_record ↦ answer
]

unfoldable pub collect : ℕ → DnsAnswer → List Rr → DnsAnswer
collect record_type answer [] = answer
collect record_type answer (rr ∷ rrs) = collect record_type (add_record record_type answer rr) rrs

abbrev pub empty_answer : List ℕ → DnsAnswer
empty_answer domain = record { domain = domain; addresses = []; ttl = 0 }

-- Resolve, from the test of the return code on.
unfoldable pub answer_of : List ℕ → ℕ → Response → Result DnsAnswer
answer_of host record_type res =
    if not (res.rcode == rcode_success)
    then failed
    else let answer = collect record_type (empty_answer host) res.answer in
      if found_addresses answer.addresses then returned answer else failed

module _ {W : Type 0} (client : Client W) where
  -- The loop over the servers; an error means that none of them answered.
  unfoldable pub exchange_from : List (List ℕ) → List ℕ → ℕ → W → Option Response × W
  exchange_from [] name record_type w = (none, w)
  exchange_from (server ∷ rest) name record_type w =
      let answered = client.exchange w name record_type (with_port server) in
      let later = exchange_from rest name record_type answered.1 in
      elim answered.0 [ none ↦ later | some res ↦ (some res, answered.1) ]

  -- DefaultResolver.Resolve, with the servers of its configuration.
  unfoldable pub resolve : List (List ℕ) → List ℕ → ℕ → W → Result DnsAnswer × W
  resolve servers host record_type w = elim (to_fqdn host) [
    | none ↦ (panicked, w)
    | some name ↦
        let exchanged = exchange_from servers name record_type w in
        elim exchanged.0 [
          | none ↦ (failed, exchanged.1)
          | some res ↦ (answer_of host record_type res, exchanged.1)
        ]
  ]
