-- ===== src/Audit/Dns/Proxy.antt =====
-- pkg/audit/network/dnsproxy.go: the DNS proxy, which answers queries through an upstream server and
-- writes the addresses of restricted domains into the tries on the way. A parameter is what
-- `SetReply` of miekg/dns makes of the questions and what `IP.String` of Go prints.
use bouheki.Prelude.{
  ℕ, List, [], ◌∷◌, ◌++◌, Bool, true, false, ◌&&◌, none, some, if◌then◌else◌, ◌==◌,
}
use bouheki.Audit.Network.Ip.{bytes_eq}
use bouheki.Audit.Network.Manager.{RestrictedNetworkConfig}
use bouheki.Audit.Network.Setters.{Libbpf}
use bouheki.Audit.Network.Cidr.{update_allowed_fqdn_list, update_denied_fqdn_list}
use bouheki.Audit.Dns.{
  Client, DnsAnswer, Response, Result, Rr, a, aaaa, empty_answer, failed, other_record, panicked,
  returned, to_fqdn, type_a, type_aaaa, with_port,
}
use bouheki.Audit.Dns.Update.{State, Update, then_do}

-- type DNSProxyConfig of pkg/config/config.go
pub record DnsProxyConfig : Type 0 where
  pub enable : Bool
  pub upstreams : List (List ℕ)
  pub bind_addresses : List (List ℕ)

abbrev pub is_empty : {A : Type 0} → List A → Bool
is_empty [] = true
is_empty (x ∷ xs) = false

-- Validate of pkg/config/config.go: whether there is no error.
unfoldable pub validate : DnsProxyConfig → Bool
validate c = if c.enable && is_empty c.upstreams then false else true

-- dns.Question
pub record Question : Type 0 where
  pub name : List ℕ
  pub qtype : ℕ

abbrev pub with_address : DnsAnswer → Rr → List ℕ → DnsAnswer
with_address answer rr address = record {
  domain = answer.domain;
  addresses = answer.addresses ++ address ∷ [];
  ttl = rr.ttl;
}

-- One round of the loop of dnsResponseToDNSAnswer.
abbrev pub add_answer : DnsAnswer → Rr → DnsAnswer
add_answer answer rr =
    if rr.rrtype == type_a
    then elim rr.rdata [
      | a address ↦ with_address answer rr address
      | aaaa address ↦ answer
      | other_record ↦ answer
    ]
    else if rr.rrtype == type_aaaa
    then elim rr.rdata [
      | a address ↦ answer
      | aaaa address ↦ with_address answer rr address
      | other_record ↦ answer
    ]
    else answer

unfoldable pub answers_from : DnsAnswer → List Rr → DnsAnswer
answers_from answer [] = answer
answers_from answer (rr ∷ rrs) = answers_from (add_answer answer rr) rrs

-- dnsResponseToDNSAnswer, and `dnsAnswer.Domain = fqdn`
unfoldable pub dns_response_to_dns_answer : List ℕ → Response → DnsAnswer
dns_response_to_dns_answer fqdn response = answers_from (empty_answer fqdn) response.answer

-- The cache: names by the text of addresses, the last one written first.
abbrev pub DnsCache : Type 0
DnsCache = List (List ℕ × List ℕ)

abbrev pub cached : List ℕ → DnsCache → List ℕ
cached text [] = []
cached text ((key, fqdn) ∷ cache) = if bytes_eq text key then fqdn else cached text cache

unfoldable pub update_dns_cache : (List ℕ → List ℕ) → List ℕ → List (List ℕ) → DnsCache → DnsCache
update_dns_cache ip_string fqdn [] cache = cache
update_dns_cache ip_string fqdn (address ∷ addresses) cache =
    update_dns_cache ip_string fqdn addresses ((ip_string address, fqdn) ∷ cache)

-- Whether a domain of the list is the name, found by the loop up to its `break`.
unfoldable pub lists_domain : List (List ℕ) → List ℕ → Result Bool
lists_domain [] fqdn = returned false
lists_domain (domain ∷ domains) fqdn =
    let rest = lists_domain domains fqdn in
    elim (to_fqdn domain) [
      | none ↦ panicked
      | some name ↦ if bytes_eq name fqdn then returned true else rest
    ]

-- The answers collected for the client, the cache and the maps.
pub record ProxyState (W : Type 0) : Type 0 where
  pub answers : List Rr
  pub dns_cache : DnsCache
  pub state : State W

module _ {W : Type 0} (lib : Libbpf) (client : Client W) (ip_string : List ℕ → List ℕ) where
  -- DNSProxy.resolve; `Servers[0]` is out of range without a server.
  unfoldable pub proxy_resolve : List (List ℕ) → List ℕ → ℕ → W → Result Response × W
  proxy_resolve [] name query_type w = (panicked, w)
  proxy_resolve (server ∷ servers) name query_type w =
      let answered = client.exchange w name query_type (with_port server) in
      (elim answered.0 [ none ↦ failed | some res ↦ returned res ], answered.1)

  -- The update of one of the lists, whose error is ignored, if the name is restricted.
  abbrev pub update_if :
      Update → List (List ℕ) → Result Bool → State W → Result (Unit {0}) × State W
  update_if update addresses (returned true) s = (
    returned tt,
    record { entry = s.entry; store = (update addresses s.store).1; world = s.world },
  )
  update_if update addresses (returned false) s = (returned tt, s)
  update_if update addresses failed s = (returned tt, s)
  update_if update addresses panicked s = (panicked, s)

  module _ (c : RestrictedNetworkConfig) (upstreams : List (List ℕ)) where
    -- The lists that the name is in.
    unfoldable pub update_lists : List ℕ → DnsAnswer → State W → Result (Unit {0}) × State W
    update_lists fqdn answer s =
        then_do
          (update_if (update_allowed_fqdn_list lib) answer.addresses
            (lists_domain c.allow_domains fqdn) s)
          (λ s'.
            update_if (update_denied_fqdn_list lib) answer.addresses
              (lists_domain c.deny_domains fqdn) s')

    -- With what the upstream server answered.
    abbrev pub serve_response :
        List ℕ → Result Response × W → ProxyState W → Result (Unit {0}) × ProxyState W
    serve_response fqdn (returned res, w) p =
        let dns_answer = dns_response_to_dns_answer fqdn res in
        let updated =
          update_lists fqdn dns_answer
            (record { entry = p.state.entry; store = p.state.store; world = w }) in
        (
          updated.0,
          record {
            answers = p.answers ++ res.answer;
            dns_cache = update_dns_cache ip_string fqdn dns_answer.addresses p.dns_cache;
            state = updated.1;
          },
        )
    serve_response fqdn (failed, w) p = (
      returned tt,
      record {
        answers = p.answers;
        dns_cache = p.dns_cache;
        state = record { entry = p.state.entry; store = p.state.store; world = w };
      },
    )
    serve_response fqdn (panicked, w) p = (
      panicked,
      record {
        answers = p.answers;
        dns_cache = p.dns_cache;
        state = record { entry = p.state.entry; store = p.state.store; world = w };
      },
    )

    -- The loop of ServeDNS over the questions of the query, with those of the reply beside them;
    -- `msg.Question[i]` is out of range if there are fewer.
    unfoldable pub serve_questions :
        List Question → List Question → ProxyState W → Result (Unit {0}) × ProxyState W
    serve_questions [] replied p = (returned tt, p)
    serve_questions (q ∷ questions) [] p = (panicked, p)
    serve_questions (q ∷ questions) (r ∷ replied) p =
        let served =
          serve_response r.name (proxy_resolve upstreams r.name q.qtype p.state.world) p in
        let rest = serve_questions questions replied served.1 in
        elim served.0 [ panicked ↦ served | failed ↦ served | returned u ↦ rest ]

    -- ServeDNS; what it returns is written to the client, unless it panics.
    unfoldable pub serve_dns :
        (List Question → List Question)
        → List Question
        → DnsCache
        → State W
        → Result (Unit {0}) × ProxyState W
    serve_dns set_reply questions dns_cache s =
        serve_questions questions (set_reply questions)
          (record { answers = []; dns_cache = dns_cache; state = s })
