-- ===== src/Audit/Dns/Allowed.antt =====
-- pkg/audit/network/dnsproxy.go: what a query for an allowed domain leaves in the tries.
use bouheki.Prelude.{
  ℕ, ◌≡◌, sym, ap, ◌∙◌, List, [], ◌∷◌, String, Bool, true, ◌||◌, some, if◌then◌else◌, length, take,
  ◌+◌, Bool-cases, inl, inr,
}
use bouheki.Audit.Network.Ip.{AreBytes, bytes_eq}
use bouheki.Audit.Network.Trie.{IsTrie, Trie, any, matches}
use bouheki.Audit.Network.Manager.{RestrictedNetworkConfig}
use bouheki.Audit.Network.Setters.{Libbpf}
use bouheki.Audit.Network.Cidr.{
  allowed_v4_cidr_list_map_name, allowed_v6_cidr_list_map_name, domain_name_to_bpf_map_key,
  update_allowed_fqdn_list, update_denied_fqdn_list,
}
use bouheki.Audit.Network.Entries.{allowed-AreNames}
use bouheki.Audit.Network.Ranges.{bytes}
use bouheki.Audit.Network.Covered.{search, search-found, search_key}
use bouheki.Audit.Dns.{Client, DnsAnswer, Response, returned, with_port}
use bouheki.Audit.Dns.Addresses.{search-update_addresses}
use bouheki.Audit.Dns.Wire.{AreAddresses, plain}
use bouheki.Audit.Dns.Async.{Keeping-update_addresses}
use bouheki.Audit.Dns.Update.{State}
use bouheki.Audit.Dns.Proxy.{
  DnsCache, ProxyState, Question, cached, dns_response_to_dns_answer, proxy_resolve, serve_dns,
  serve_questions, serve_response, update_dns_cache,
}
use bouheki.Audit.Dns.Served.{
  NotEmpty, is_fqdn_of, last_question, after_update, after_lists, update_lists_lem,
  cached-update_dns_cache,
}

module _ {W : Type 0} (lib : Libbpf) (client : Client W) (ip_string : List ℕ → List ℕ)
    (c : RestrictedNetworkConfig) where
  proxy_resolve-some :
      (server : List ℕ) (servers : List (List ℕ)) (name : List ℕ) (query_type : ℕ) (w : W)
      (res : Response)
      → (client.exchange w name query_type (with_port server)).0 ≡ some res
      → proxy_resolve lib client ip_string (server ∷ servers) name query_type w
        ≡ (returned res, (client.exchange w name query_type (with_port server)).1)
  unfolding proxy_resolve
  proxy_resolve-some server servers name query_type w res e = rw (e, proxy_resolve)

  -- The state after one question that the upstream server answered.
  abbrev served_state : List ℕ → Response → DnsCache → State W → W → ProxyState W
  served_state fqdn res cache s w =
      let answer = dns_response_to_dns_answer fqdn res in
      record {
        answers = res.answer;
        dns_cache = update_dns_cache ip_string fqdn answer.addresses cache;
        state =
            after_lists lib client ip_string c fqdn answer
              (record { entry = s.entry; store = s.store; world = w });
      }

  serve_dns-one :
      (server : List ℕ) (servers : List (List ℕ)) (set_reply : List Question → List Question)
      (q r : Question) (replied : List Question) (res : Response) (cache : DnsCache) (s : State W)
      → NotEmpty c.allow_domains
      → NotEmpty c.deny_domains
      → set_reply (q ∷ []) ≡ r ∷ replied
      → (client.exchange s.world r.name q.qtype (with_port server)).0 ≡ some res
      → serve_dns lib client ip_string c (server ∷ servers) set_reply (q ∷ []) cache s ≡ (
        returned tt,
        served_state r.name res cache s
            (client.exchange s.world r.name q.qtype (with_port server)).1,
      )
  unfolding serve_dns serve_questions
  serve_dns-one server servers set_reply q r replied res cache s allowed denied reply answered =
      let p : ProxyState W = record { answers = []; dns_cache = cache; state = s } in
      let w = (client.exchange s.world r.name q.qtype (with_port server)).1 in
      let answer = dns_response_to_dns_answer r.name res in
      ap (λ qs. serve_questions lib client ip_string c (server ∷ servers) (q ∷ []) qs p) reply
      ∙ (ap
            (λ x.
              last_question (serve_response lib client ip_string c (server ∷ servers) r.name x p))
            (proxy_resolve-some server servers r.name q.qtype s.world res answered)
          ∙ ap
              (λ u. last_question (
                u.0,
                record {
                  answers = res.answer;
                  dns_cache = update_dns_cache ip_string r.name answer.addresses cache;
                  state = u.1;
                },
              ))
              (update_lists_lem lib client ip_string c (server ∷ servers) r.name answer
                (record { entry = s.entry; store = s.store; world = w }) allowed denied))

  -- An update of the denied ones takes nothing away.
  denied-keeps :
      (fqdn : List ℕ) (answer : DnsAnswer) (p : List ℕ → Bool) (name : String) (s : State W)
      → any p (
          (after_update lib client ip_string c
              (update_allowed_fqdn_list lib)
              answer.addresses
              (any (is_fqdn_of fqdn) c.allow_domains)
              s).store
            name)
        ≡ true
      → any p ((after_lists lib client ip_string c fqdn answer s).store name) ≡ true
  unfolding update_denied_fqdn_list
  denied-keeps fqdn answer p name s h = elim (Bool-cases (any (is_fqdn_of fqdn) c.deny_domains)) [
    | inl listed ↦ rw listed (
        (Keeping-update_addresses lib _ _ (domain_name_to_bpf_map_key answer.addresses)).kept p name
          _ h)
    | inr unlisted ↦ rw unlisted h
  ]

  -- A query has one question, and its reply has a question too; no domain of the settings is the
  -- empty text; the first upstream server answers, the name of the question in the reply is that of
  -- an allowed domain, and the update of the allowed ones has no error, which ServeDNS would ignore.
  -- When the reply is written, every address of the answer, an IPv4 address with 4 bytes or with
  -- 16, is found among the allowed ones; the answer is passed on to the client, and the cache has the
  -- name of the domain for the text of each address.
  pub serve_dns-allowed :
      (t : Trie) (server : List ℕ) (servers : List (List ℕ))
      (set_reply : List Question → List Question) (q r : Question) (replied : List Question)
      (res : Response) (is_v6 : Bool) (d text : List ℕ) (cache : DnsCache) (s : State W)
      → IsTrie t
      → NotEmpty c.allow_domains
      → NotEmpty c.deny_domains
      → set_reply (q ∷ []) ≡ r ∷ replied
      → (client.exchange s.world r.name q.qtype (with_port server)).0 ≡ some res
      → any (is_fqdn_of r.name) c.allow_domains ≡ true
      → AreAddresses (dns_response_to_dns_answer r.name res).addresses
      → (update_allowed_fqdn_list lib (dns_response_to_dns_answer r.name res).addresses s.store).0
        ≡ true
      → length d ≡ bytes is_v6
      → AreBytes d
      → any
          (λ address. bytes_eq (plain address) d)
          (dns_response_to_dns_answer r.name res).addresses
        ≡ true
      → any
          (λ address. bytes_eq text (ip_string address))
          (dns_response_to_dns_answer r.name res).addresses
        ≡ true
      → (search t is_v6
            ((serve_dns lib client ip_string c
                (server ∷ servers)
                set_reply
                (q ∷ [])
                cache
                s).1.state.store
              (if is_v6 then allowed_v6_cidr_list_map_name else allowed_v4_cidr_list_map_name))
            d
          ≡ true)
        × ((serve_dns lib client ip_string c
              (server ∷ servers)
              set_reply
              (q ∷ [])
              cache
              s).1.answers
            ≡ res.answer)
        × (cached text
              (serve_dns lib client ip_string c
                (server ∷ servers)
                set_reply
                (q ∷ [])
                cache
                s).1.dns_cache
            ≡ r.name)
  unfolding update_allowed_fqdn_list
  serve_dns-allowed t server servers set_reply q r replied res is_v6 d text cache s trie allowed
        denied reply answered listed are updated h hd among texts =
      let answer = dns_response_to_dns_answer r.name res in
      let w = (client.exchange s.world r.name q.qtype (with_port server)).1 in
      let name = if is_v6 then allowed_v6_cidr_list_map_name else allowed_v4_cidr_list_map_name in
      let e =
        serve_dns-one server servers set_reply q r replied res cache s allowed denied reply
          answered in
      let start : State W = record { entry = s.entry; store = s.store; world = w } in
      let first =
        after_update lib client ip_string c (update_allowed_fqdn_list lib) answer.addresses
          (any (is_fqdn_of r.name) c.allow_domains) start in
      let here : search t is_v6 (first.store name) d ≡ true = rw listed (
        search-update_addresses is_v6 d h hd t lib allowed_v4_cidr_list_map_name
          allowed_v6_cidr_list_map_name answer.addresses s.store trie allowed-AreNames are updated
        ∙ ap (λ b. b || search t is_v6 (s.store name) d) among) in
      (
        ap (λ p. search t is_v6 (p.1.state.store name) d) e
            ∙ (search-found t trie is_v6 d _
                ∙ denied-keeps r.name answer
                    (λ key. matches (search_key is_v6 d) (take (4 + bytes is_v6) key)) name start
                    (sym (search-found t trie is_v6 d (first.store name)) ∙ here)),
        ap (λ p. p.1.answers) e,
        ap (λ p. cached text p.1.dns_cache) e
            ∙ (cached-update_dns_cache ip_string r.name text answer.addresses cache
                ∙ ap (λ b. if b then r.name else cached text cache) texts),
      )
