-- ===== src/Dbus/Dns.antt =====
-- dbus/fakeip_cache.go and dbus/proxyPriv_proxy_dns.go: the DNS proxy answers a query for a domain
-- with a made-up address, and finds the domain again when a connection to that address arrives.
-- The mutex of the cache makes each of its methods one step here. `none` is a panic of `ipToUint`.
-- The DNS server around it is outside the model: a message is its questions, and `new_rr` stands for
-- `dns.NewRR` on the text of an answer.
pub mod Owners
pub mod History
pub mod Messages
use deepin_network_proxy.Dbus.FakeIp.{FakeIp, ip_to_uint, uint_to_ip, new_fake_ip, new}
use deepin_network_proxy.Dbus.Lru.{Lru, Key, domain_key, number_key}
use deepin_network_proxy.Prelude.{
  ℕ, ◌+◌, ◌-◌, ◌&&◌, Option, none, some, List, [], ◌∷◌, ◌++◌, arith, nat_eq, if◌then◌else◌, Bytes,
  nat_Eq, list_Eq, ◌==◌,
}

abbrev pub cache_max_size : ℕ
cache_max_size = 1000

-- `strings.TrimRight(domain, ".")`: all the dots at the end go.
unfoldable pub trim_dots : Bytes → Bytes
trim_dots [] = []
trim_dots (c ∷ cs) = let rest = trim_dots cs in if nat_eq c b'.' && rest == [] then [] else c ∷ rest

-- `miekg/dns`: the numbers of the query types and of the opcode that the code compares with.
abbrev pub type_a : ℕ
type_a = 1

abbrev pub opcode_query : ℕ
opcode_query = 0

pub record Question : Type 0 where
  pub name : Bytes
  pub qtype : ℕ

pub record Query : Type 0 where
  pub opcode : ℕ
  pub questions : List Question

infixl 5 ◌>>?◌
abbrev pub ◌>>?◌ {ℓ κ} : {A : Type ℓ} {B : Type κ} → Option A → (A → Option B) → Option B
none >>? f = none
some a >>? f = f a

module _ (D : Lru ℕ) (I : Lru Bytes) where
  pub record Dns : Type 0 where
    pub f_ip : FakeIp
    pub domain_cache : D.Cache
    pub ip_cache : I.Cache

  -- `newProxyDNS`, with `newFakeIPCache`.
  unfoldable pub new_proxy_dns : Option Dns
  new_proxy_dns = new_fake_ip (192 ∷ 168 ∷ 135 ∷ 0 ∷ []) 24 >>? λ f.
      some
        (record { f_ip = f; domain_cache = D.new cache_max_size; ip_cache = I.new cache_max_size })

  -- `fakeIPCache.Add`.
  unfoldable pub cache_add : Dns → Bytes → Bytes → Option Dns
  cache_add s domain ip = ip_to_uint ip >>? λ v. some (record s {
    domain_cache = D.add (domain_key domain) v s.domain_cache;
    ip_cache = I.add (number_key v) domain s.ip_cache;
  })

  -- `fakeIPCache.GetByDomain`: on a hit, the number is looked up in the domain cache once more.
  unfoldable pub get_by_domain : Dns → Bytes → Option Bytes × Dns
  get_by_domain s domain =
      let (found, c) = D.get (domain_key domain) s.domain_cache in
      elim found [
        | none ↦ (none, record s { domain_cache = c })
        | some v ↦ (some (uint_to_ip v), record s { domain_cache = (D.get (number_key v) c).1 })
      ]

  -- `fakeIPCache.GetByIP`: on a hit, the domain is marked as used in the domain cache.
  unfoldable pub get_by_ip : Dns → Bytes → Option (Option Bytes × Dns)
  get_by_ip s ip = ip_to_uint ip >>? λ v.
      let (found, c) = I.get (number_key v) s.ip_cache in
      elim found [
        | none ↦ some (none, record s { ip_cache = c })
        | some domain ↦ some (
          some domain,
          record s { ip_cache = c; domain_cache = (D.get (domain_key domain) s.domain_cache).1 },
        )
      ]

  -- What `resolveDomain` does once the cache has answered.
  unfoldable pub resolve_missing : Dns → Bytes → Option (Bytes × Dns)
  resolve_missing s domain =
      let (ip, f) = new s.f_ip in cache_add (record s { f_ip = f }) domain ip >>? λ t. some (ip, t)

  -- `proxyDNS.resolveDomain`.
  unfoldable pub resolve_domain : Dns → Bytes → Option (Bytes × Dns)
  resolve_domain s name =
      let domain = trim_dots name in
      let (found, t) = get_by_domain s domain in
      elim found [ some ip ↦ some (ip, t) | none ↦ resolve_missing t domain ]

  module _ {Rr : Type 0} (new_rr : Bytes → Bytes → Option Rr) where
    -- `proxyDNS.parseQuery`: the answers are appended in the order of the questions.
    unfoldable pub parse_query : Dns → List Question → List Rr → Option (List Rr × Dns)
    parse_query s [] answer = some (answer, s)
    parse_query s (q ∷ qs) answer =
        if nat_eq q.qtype type_a
        then (resolve_domain s q.name >>? λ (ip, t).
            parse_query t qs
              (elim (new_rr q.name ip) [ none ↦ answer | some rr ↦ answer ++ rr ∷ [] ]))
        else parse_query s qs answer

    -- `proxyDNS.ServeDNS`, up to the reply that it writes. `set_reply` gives the questions that the
    -- library's `SetReply` takes over from the query into the reply.
    unfoldable pub serve_dns :
        (List Question → List Question) → Dns → Query → Option (List Rr × Dns)
    serve_dns set_reply s r =
        if nat_eq r.opcode opcode_query
        then parse_query s (set_reply r.questions) []
        else some ([], s)
