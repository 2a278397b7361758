-- ===== src/Config/Laws.antt =====
-- What config/config.go promises its callers: a proxy or a scope that was set is the one that is
-- read, and nothing else changes.
use deepin_network_proxy.Define.{
  Scope, scope_string, scope_string-injective, scope_eq, scope_eq_iff,
}
use deepin_network_proxy.Config.{
  Proxy, ScopeProxies, ProxyConfig, name_missing, all_proxies_nil, find_name, replace_name,
  exists_name, set_in, set_proxy, get_proxy, read_map, or_empty, get_scope_proxies,
  set_scope_proxies,
}
use deepin_network_proxy.Prelude.{
  ◌≡◌, refl, ◌∙◌, ◌≢◌, inl, inr, false, ◌&&◌, Option, none, some, List, [], ◌∷◌, ◌++◌, arith,
  if◌then◌else◌, Option-cases, Bytes, nat_Eq, list_Eq, ◌==◌, list_eq_iff, ==_refl, GoMap, lookup,
  lookup-insert, Result, ok, err,
}

abbrev pub or_none {ℓ} : {E : Type 0} {A : Type ℓ} → Result E A → Option A
or_none (ok a) = some a
or_none (err _) = none

-- The scope's proxies as a partial function of protocol and name.
abbrev pub proxy_at : ScopeProxies → Bytes → Bytes → Option Proxy
proxy_at s proto name = or_none (get_proxy (some s) proto name)

abbrev or_nil : Option (List Proxy) → List Proxy
or_nil none = []
or_nil (some ps) = ps

find_name-replace_name :
    (n k : Bytes) (p : Proxy) (ps : List Proxy)
    → p.name ≡ n
    → find_name k (replace_name n p ps)
      ≡ (if n == k then (if exists_name n ps then some p else none) else find_name k ps)
unfolding find_name replace_name exists_name
find_name-replace_name n k p [] h = ground arith
find_name-replace_name n k p (old ∷ ps) h = ground (
  arith,
  list_eq_iff n k,
  list_eq_iff p.name k,
  list_eq_iff old.name n,
  list_eq_iff old.name k,
  find_name-replace_name n k p ps h,
)

find_name-append :
    (k : Bytes) (ps : List Proxy) (p : Proxy)
    → find_name k (ps ++ p ∷ [])
      ≡ (elim (find_name k ps) [ some q ↦ some q | none ↦ if p.name == k then some p else none ])
unfolding find_name
find_name-append k [] p = refl
find_name-append k (q ∷ ps) p = ground (arith, find_name-append k ps p)

exists_name-find_name :
    (n : Bytes) (ps : List Proxy) → exists_name n ps ≡ false → find_name n ps ≡ none
unfolding exists_name find_name
exists_name-find_name n [] h = refl
exists_name-find_name n (old ∷ ps) h = ground (arith, exists_name-find_name n ps)

find_name-set_in :
    (n k : Bytes) (p : Proxy) (o : Option (List Proxy))
    → p.name ≡ n
    → find_name k (set_in n p o) ≡ (if n == k then some p else find_name k (or_nil o))
unfolding set_in
find_name-set_in n k p none h =
    unfold find_name in ground (arith, list_eq_iff n k, list_eq_iff p.name k)
find_name-set_in n k p (some ps) h = ground (
  arith,
  list_eq_iff n k,
  list_eq_iff p.name k,
  find_name-replace_name n k p ps h,
  find_name-append k (replace_name n p ps) p,
  exists_name-find_name n ps,
)

-- What is stored at a protocol.
abbrev stored : ScopeProxies → Bytes → Option (List Proxy)
stored s proto = read_map s.proxies proto

proxy_at_lem :
    (s : ScopeProxies) (proto name : Bytes)
    → proxy_at s proto name ≡ find_name name (or_nil (stored s proto))
unfolding get_proxy find_name
proxy_at_lem s proto name = ground arith

stored-or_empty :
    (s : ScopeProxies) (proto : Bytes) → lookup proto (or_empty s.proxies) ≡ stored s proto
unfolding lookup
stored-or_empty s proto = ground arith

stored-set_proxy :
    (s : ScopeProxies) (proto name proto' : Bytes) (p : Proxy)
    → stored (set_proxy s proto name p) proto'
      ≡ (if proto == proto' then some (set_in name p (stored s proto)) else stored s proto')
unfolding set_proxy
stored-set_proxy s proto name proto' p =
    lookup-insert proto proto' (set_in name p (lookup proto (or_empty s.proxies)))
      (or_empty s.proxies)
    ∙ rw (stored-or_empty s proto, stored-or_empty s proto')

find_name-misnamed :
    (n : Bytes) (p : Proxy) (ps : List Proxy)
    → p.name ≢ n
    → find_name n (replace_name n p ps) ≡ none
unfolding find_name replace_name
find_name-misnamed n p [] h = refl
find_name-misnamed n p (old ∷ ps) h =
    ground (arith, list_eq_iff p.name n, list_eq_iff old.name n, find_name-misnamed n p ps h)

set_in-misnamed :
    (n : Bytes) (p : Proxy) (o : Option (List Proxy))
    → p.name ≢ n
    → find_name n (set_in n p o) ≡ none
unfolding set_in
set_in-misnamed n p none h = unfold find_name in ground (arith, list_eq_iff p.name n)
set_in-misnamed n p (some ps) h = ground (
  arith,
  list_eq_iff p.name n,
  find_name-misnamed n p ps h,
  find_name-append n (replace_name n p ps) p,
)

-- After `SetProxy(proto, name, proxy)` with the proxy's own name, `GetProxy` gives the new proxy at
-- that protocol and name, and what it gave before everywhere else.
pub proxy_at-set_proxy :
    (s : ScopeProxies) (proto name proto' name' : Bytes) (p : Proxy)
    → p.name ≡ name
    → proxy_at (set_proxy s proto name p) proto' name'
      ≡ (if proto == proto' && name == name' then some p else proxy_at s proto' name')
proxy_at-set_proxy s proto name proto' name' p h =
    proxy_at_lem (set_proxy s proto name p) proto' name'
    ∙ ground (
      arith,
      stored-set_proxy s proto name proto' p,
      find_name-set_in name name' p (stored s proto) h,
      proxy_at_lem s proto' name',
      list_eq_iff proto proto',
    )

-- `AddProxy` takes the proxy from JSON and the name beside it: if the two differ, what is stored
-- cannot be read back, and a proxy that had that name is gone.
pub set_proxy_misnamed :
    (s : ScopeProxies) (proto name : Bytes) (p : Proxy)
    → p.name ≢ name
    → get_proxy (some (set_proxy s proto name p)) proto name ≡ err name_missing
unfolding get_proxy
set_proxy_misnamed s proto name p h = ground (
  arith,
  stored-set_proxy s proto name proto p,
  ==_refl proto,
  set_in-misnamed name p (stored s proto) h,
)

set_scope_proxies-some :
    (c : ProxyConfig) (s t : Scope) (x : ScopeProxies) (all : GoMap Bytes ScopeProxies)
    → c.all_proxies ≡ some all
    → get_scope_proxies (set_scope_proxies c s x) t
      ≡ (if scope_eq s t then ok x else get_scope_proxies c t)
unfolding set_scope_proxies get_scope_proxies
set_scope_proxies-some c s t x all h = ground (
  arith,
  lookup-insert (scope_string s) (scope_string t) x all,
  list_eq_iff (scope_string s) (scope_string t),
  scope_string-injective s t,
  scope_eq_iff s t,
)

-- `SetScopeProxies` then `GetScopeProxies`, at every pair of scopes; on a nil map the write is lost.
pub get_scope_proxies-set_scope_proxies :
    (c : ProxyConfig) (s t : Scope) (x : ScopeProxies)
    → get_scope_proxies (set_scope_proxies c s x) t ≡ (elim c.all_proxies [
      | none ↦ err all_proxies_nil
      | some _ ↦ if scope_eq s t then ok x else get_scope_proxies c t
    ])
get_scope_proxies-set_scope_proxies c s t x = elim (Option-cases c.all_proxies) [
  | inl h ↦ unfold set_scope_proxies get_scope_proxies in ground arith
  | inr (all, h) ↦ ground (arith, set_scope_proxies-some c s t x all h)
]
