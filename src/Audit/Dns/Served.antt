-- ===== src/Audit/Dns/Served.antt =====
-- pkg/audit/network/dnsproxy.go: what a query leaves in the cache and in the tries.
use bouheki.Prelude.{
  leb, ℕ, ◌≡◌, refl, ap, ap₂, ◌∙◌, List, [], ◌∷◌, Bool, true, false, ◌&&◌, ◌||◌, none, some,
  if◌then◌else◌, length, Bool-cases, Option-cases, inl, inr, is_some, arith,
}
use bouheki.Audit.Network.Ip.{bytes_eq}
use bouheki.Audit.Network.Trie.{any}
use bouheki.Audit.Network.Manager.{RestrictedNetworkConfig}
use bouheki.Audit.Network.Setters.{Libbpf}
use bouheki.Audit.Network.Cidr.{update_allowed_fqdn_list, update_denied_fqdn_list}
use bouheki.Audit.Dns.{
  Client, DnsAnswer, Response, Result, failed, panicked, returned, to_fqdn, with_port,
}
use bouheki.Audit.Dns.Update.{State, Update, then_do}
use bouheki.Audit.Dns.Proxy.{
  DnsCache, DnsProxyConfig, ProxyState, Question, cached, lists_domain, proxy_resolve, serve_dns,
  serve_questions, serve_response, update_dns_cache, update_if, update_lists, validate, is_empty,
}

-- The domain, with a dot at its end, is the name.
abbrev pub is_fqdn_of : List ℕ → List ℕ → Bool
is_fqdn_of fqdn domain = elim (to_fqdn domain) [ none ↦ false | some name ↦ bytes_eq name fqdn ]

-- None of the domains is the empty text.
abbrev pub NotEmpty : List (List ℕ) → Type 0
NotEmpty [] = Unit
NotEmpty (domain ∷ domains) = (is_some (to_fqdn domain) ≡ true) × NotEmpty domains

-- The cache afterwards: the addresses of the answer have its name, others what they had.
pub cached-update_dns_cache :
    (ip_string : List ℕ → List ℕ) (fqdn text : List ℕ) (addresses : List (List ℕ))
    (cache : DnsCache)
    → cached text (update_dns_cache ip_string fqdn addresses cache) ≡ (
        if any (λ address. bytes_eq text (ip_string address)) addresses
        then fqdn
        else cached text cache)
unfolding update_dns_cache
cached-update_dns_cache ip_string fqdn text [] cache = refl
cached-update_dns_cache ip_string fqdn text (address ∷ addresses) cache =
    cached-update_dns_cache ip_string fqdn text addresses ((ip_string address, fqdn) ∷ cache)
    ∙ merge (bytes_eq text (ip_string address))
        (any (λ address. bytes_eq text (ip_string address)) addresses)
  where
    merge :
        (here there : Bool)
        → (if there then fqdn else if here then fqdn else cached text cache)
          ≡ (if here || there then fqdn else cached text cache)
    merge true true = refl
    merge true false = refl
    merge false there = refl

-- The loop finds out whether a domain is the name.
pub lists_domain_lem :
    (domains : List (List ℕ)) (fqdn : List ℕ)
    → NotEmpty domains
    → lists_domain domains fqdn ≡ returned (any (is_fqdn_of fqdn) domains)
unfolding lists_domain
lists_domain_lem [] fqdn h = refl
lists_domain_lem (domain ∷ domains) fqdn h = elim (Option-cases (to_fqdn domain)) [
  | inl e ↦ absurd (cc (rw e at h.0))
  | inr (name, e) ↦ elim (Bool-cases (bytes_eq name fqdn)) [
    | inl same ↦ rw (e, same, lists_domain, is_fqdn_of)
    | inr differ ↦ rw (e, differ, lists_domain, is_fqdn_of) (lists_domain_lem domains fqdn h.1)
  ]
]

-- The end of the loop after its last question.
abbrev pub last_question :
    {W : Type 0} → Result (Unit {0}) × ProxyState W → Result (Unit {0}) × ProxyState W
last_question served = elim served.0 [
  | panicked ↦ served
  | failed ↦ served
  | returned u ↦ (returned tt, served.1)
]

module _ {W : Type 0} (lib : Libbpf) (client : Client W) (ip_string : List ℕ → List ℕ)
    (c : RestrictedNetworkConfig) where
  -- The update of one list, given whether the name is in it.
  abbrev pub after_update : Update → List (List ℕ) → Bool → State W → State W
  after_update update addresses b s =
      (update_if lib client ip_string update addresses (returned b) s).1

  update_if_lem :
      (update : Update) (addresses : List (List ℕ)) (b : Bool) (s : State W)
      → update_if lib client ip_string update addresses (returned b) s
        ≡ (returned tt, after_update update addresses b s)
  update_if_lem update addresses true s = refl
  update_if_lem update addresses false s = refl

  -- The maps after the updates of both lists.
  abbrev pub after_lists : List ℕ → DnsAnswer → State W → State W
  after_lists fqdn answer s =
      after_update (update_denied_fqdn_list lib) answer.addresses
        (any (is_fqdn_of fqdn) c.deny_domains)
        (after_update (update_allowed_fqdn_list lib) answer.addresses
          (any (is_fqdn_of fqdn) c.allow_domains) s)

  pub update_lists_lem :
      (upstreams : List (List ℕ)) (fqdn : List ℕ) (answer : DnsAnswer) (s : State W)
      → NotEmpty c.allow_domains
      → NotEmpty c.deny_domains
      → update_lists lib client ip_string c upstreams fqdn answer s
        ≡ (returned tt, after_lists fqdn answer s)
  unfolding update_lists
  update_lists_lem upstreams fqdn answer s allowed denied =
      ap₂
        (λ x y.
          then_do
            (update_if lib client ip_string (update_allowed_fqdn_list lib) answer.addresses x s)
            (λ s'.
              update_if lib client ip_string (update_denied_fqdn_list lib) answer.addresses y s'))
        (lists_domain_lem c.allow_domains fqdn allowed)
        (lists_domain_lem c.deny_domains fqdn denied)
      ∙ (ap
            (λ r. then_do r (λ s'.
              update_if lib client ip_string (update_denied_fqdn_list lib) answer.addresses
                (returned (any (is_fqdn_of fqdn) c.deny_domains)) s'))
            (update_if_lem (update_allowed_fqdn_list lib) answer.addresses
              (any (is_fqdn_of fqdn) c.allow_domains) s)
          ∙ update_if_lem (update_denied_fqdn_list lib) answer.addresses
              (any (is_fqdn_of fqdn) c.deny_domains) _)

  -- A server that is asked leaves no panic.
  serve_response-returned :
      (upstreams : List (List ℕ)) (fqdn : List ℕ) (r : Result Response × W) (p : ProxyState W)
      → NotEmpty c.allow_domains
      → NotEmpty c.deny_domains
      → ¬ (r.0 ≡ panicked)
      → (serve_response lib client ip_string c upstreams fqdn r p).0 ≡ returned tt
  serve_response-returned upstreams fqdn (returned res, w) p allowed denied calm =
      ap (λ r. r.0) (update_lists_lem upstreams fqdn _ _ allowed denied)
  serve_response-returned upstreams fqdn (failed, w) p allowed denied calm = refl
  serve_response-returned upstreams fqdn (panicked, w) p allowed denied calm = absurd (calm refl)

  proxy_resolve-calm :
      (server : List ℕ) (servers : List (List ℕ)) (name : List ℕ) (query_type : ℕ) (w : W)
      → ¬ ((proxy_resolve lib client ip_string (server ∷ servers) name query_type w).0 ≡ panicked)
  unfolding proxy_resolve
  proxy_resolve-calm server servers name query_type w e =
      elim (Option-cases (client.exchange w name query_type (with_port server)).0) [
        | inl none_here ↦ cc (rw (none_here, proxy_resolve) at e)
        | inr (res, some_here) ↦ cc (rw (some_here, proxy_resolve) at e)
      ]

  -- A question that the reply has too is served, and the loop goes on.
  serve_questions-next :
      (server : List ℕ) (servers : List (List ℕ)) (q r : Question)
      (questions replied : List Question) (p : ProxyState W)
      → NotEmpty c.allow_domains
      → NotEmpty c.deny_domains
      → (serve_questions lib client ip_string c
          (server ∷ servers)
          (q ∷ questions)
          (r ∷ replied)
          p).0
        ≡ (serve_questions lib client ip_string c
            (server ∷ servers)
            questions
            replied
            (serve_response lib client ip_string c
              (server ∷ servers)
              r.name
              (proxy_resolve lib client ip_string (server ∷ servers) r.name q.qtype p.state.world)
              p).1).0
  unfolding serve_questions
  serve_questions-next server servers q r questions replied p allowed denied = rw (
    serve_response-returned (server ∷ servers) r.name
        (proxy_resolve lib client ip_string (server ∷ servers) r.name q.qtype p.state.world) p
        allowed denied (proxy_resolve-calm server servers r.name q.qtype p.state.world),
    serve_questions,
  )

  serve_questions-replied :
      (server : List ℕ) (servers : List (List ℕ)) (questions : List Question)
      (set_reply : List Question → List Question) (p : ProxyState W)
      → NotEmpty c.allow_domains
      → NotEmpty c.deny_domains
      → ((q : Question) (qs : List Question) → set_reply (q ∷ qs) ≡ q ∷ [])
      → (serve_questions lib client ip_string c
          (server ∷ servers)
          questions
          (set_reply questions)
          p).0
        ≡ (if leb (length questions) 1 then returned tt else panicked)
  unfolding serve_questions
  serve_questions-replied server servers [] set_reply p allowed denied first = refl
  serve_questions-replied server servers (q ∷ []) set_reply p allowed denied first =
      rw (first q []) (serve_questions-next server servers q q [] [] p allowed denied)
  serve_questions-replied server servers (q ∷ q' ∷ qs) set_reply p allowed denied first =
      rw (first q (q' ∷ qs))
        (serve_questions-next server servers q q (q' ∷ qs) [] p allowed denied ∙ ground arith)

  -- The validated configuration enables the proxy and no domain is the empty text; the reply has
  -- the first question of a query and no other, as SetReply of miekg/dns makes it. Then a query with
  -- at most one question, the only ones that a server of miekg/dns accepts by default, never ends in
  -- a panic, whatever the upstream server answers and whether an update fails, and a query with more
  -- always does, since the reply has no second question.
  pub serve_dns-returned :
      (proxy : DnsProxyConfig) (set_reply : List Question → List Question)
      (questions : List Question) (cache : DnsCache) (s : State W)
      → proxy.enable ≡ true
      → validate proxy ≡ true
      → NotEmpty c.allow_domains
      → NotEmpty c.deny_domains
      → ((q : Question) (qs : List Question) → set_reply (q ∷ qs) ≡ q ∷ [])
      → (serve_dns lib client ip_string c proxy.upstreams set_reply questions cache s).0
        ≡ (if leb (length questions) 1 then returned tt else panicked)
  unfolding serve_dns validate
  serve_dns-returned proxy set_reply questions cache s on valid allowed denied first =
      by_upstreams proxy.enable proxy.upstreams on valid
    where
      by_upstreams :
          (enable : Bool) (upstreams : List (List ℕ))
          → enable ≡ true
          → (if enable && is_empty upstreams then false else true) ≡ true
          → (serve_dns lib client ip_string c upstreams set_reply questions cache s).0
            ≡ (if leb (length questions) 1 then returned tt else panicked)
      by_upstreams enable [] on valid = absurd (cc (rw on at valid))
      by_upstreams enable (server ∷ servers) on valid =
          serve_questions-replied server servers questions set_reply _ allowed denied first
