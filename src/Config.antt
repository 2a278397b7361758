-- ===== src/Config.antt =====
-- config/config.go: the proxies of a scope, by protocol and name, and the scopes of the configuration.
-- The YAML file that `WritePxyCfg` and `LoadPxyCfg` move to and from the disk is outside the model.
pub mod Laws
pub mod File
mod Tests
use deepin_network_proxy.Define.{Scope, scope_string}
use deepin_network_proxy.Prelude.{
  ◌>>=◌, nat_Eq, list_Eq, ℕ, ◌+◌, Bool, false, ◌||◌, Option, none, some, List, [], ◌∷◌, ◌++◌, arith,
  if◌then◌else◌, Bytes, Eq, ◌==◌, GoMap, lookup, insert, Result, ok, err,
}

pub record Proxy : Type 0 where
  pub proto_type : Bytes
  pub name : Bytes
  pub server : Bytes
  pub port : ℕ
  pub user_name : Bytes
  pub password : Bytes

-- `Proxy{}`, which an error comes with.
abbrev pub no_proxy : Proxy
no_proxy = record {
  proto_type = [];
  name = [];
  server = [];
  port = 0;
  user_name = [];
  password = [];
}

-- A Go map may be nil: `none`. A read of a nil map finds nothing.
pub record ScopeProxies : Type 0 where
  pub proxies : Option (GoMap Bytes (List Proxy))
  pub proxy_program : List Bytes
  pub no_proxy_program : List Bytes
  pub white_list : List Bytes
  pub t_port : ℕ
  pub dns_port : ℕ
  pub use_fake_ip : Bool

pub data ConfigError : Type 0 where
  proxies_nil proto_missing name_missing all_proxies_nil scope_missing proxy_missing : ConfigError

abbrev pub read_map {ℓ} : {K V : Type ℓ} ⦃e : Eq K⦄ → Option (GoMap K V) → K → Option V
read_map none k = none
read_map (some m) k = lookup k m

-- The search loop of `GetProxy`.
unfoldable pub find_name : Bytes → List Proxy → Option Proxy
find_name n [] = none
find_name n (p ∷ ps) = if p.name == n then some p else find_name n ps

abbrev pub or_error {ℓ} : {E : Type 0} {A : Type ℓ} → Option A → E → Result E A
or_error none e = err e
or_error (some a) e = ok a

-- `ScopeProxies.GetProxy`, with the receiver's nil check.
unfoldable pub get_proxy : Option ScopeProxies → Bytes → Bytes → Result ConfigError Proxy
get_proxy none proto name = err proxies_nil
get_proxy (some s) proto name = do
  proxies ← or_error (read_map s.proxies proto) proto_missing
  or_error (find_name name proxies) name_missing

-- `ScopeProxies.ClearProxy`.
unfoldable pub clear_proxy : ScopeProxies → ScopeProxies
clear_proxy s = record s { proxies = none }

-- The replacing loop of `SetProxy`: every proxy of that name is replaced.
unfoldable pub replace_name : Bytes → Proxy → List Proxy → List Proxy
replace_name n p [] = []
replace_name n p (old ∷ ps) = (if old.name == n then p else old) ∷ replace_name n p ps

-- Its flag `exist`.
unfoldable pub exists_name : Bytes → List Proxy → Bool
exists_name n [] = false
exists_name n (old ∷ ps) = old.name == n || exists_name n ps

-- What `SetProxy` stores for the protocol, from what was stored there.
unfoldable pub set_in : Bytes → Proxy → Option (List Proxy) → List Proxy
set_in n p none = p ∷ []
set_in n p (some ps) =
    if exists_name n ps then replace_name n p ps else replace_name n p ps ++ p ∷ []

abbrev pub or_empty {ℓ} : {K V : Type ℓ} → Option (GoMap K V) → GoMap K V
or_empty none = []
or_empty (some m) = m

-- `ScopeProxies.SetProxy` on a receiver that is not nil.
unfoldable pub set_proxy : ScopeProxies → Bytes → Bytes → Proxy → ScopeProxies
set_proxy s proto name p =
    let m = or_empty s.proxies in
    record s { proxies = some (insert proto (set_in name p (lookup proto m)) m) }

pub record ProxyConfig : Type 0 where
  pub all_proxies : Option (GoMap Bytes ScopeProxies)

unfoldable pub new_proxy_cfg : ProxyConfig
new_proxy_cfg = record { all_proxies = some [] }

-- `ProxyConfig.GetScopeProxies`.
unfoldable pub get_scope_proxies : ProxyConfig → Scope → Result ConfigError ScopeProxies
get_scope_proxies c scope = do
  all ← or_error c.all_proxies all_proxies_nil
  or_error (lookup (scope_string scope) all) scope_missing

-- `ProxyConfig.SetScopeProxies`: on a nil map the call is dropped.
unfoldable pub set_scope_proxies : ProxyConfig → Scope → ScopeProxies → ProxyConfig
set_scope_proxies c scope s = elim c.all_proxies [
  | none ↦ c
  | some all ↦ record c { all_proxies = some (insert (scope_string scope) s all) }
]

abbrev pub rename_error {ℓ} : {E : Type 0} {A : Type ℓ} → E → Result E A → Result E A
rename_error e (ok a) = ok a
rename_error e (err _) = err e

-- `ProxyConfig.GetProxy`.
unfoldable pub cfg_get_proxy : ProxyConfig → Bytes → Bytes → Bytes → Result ConfigError Proxy
cfg_get_proxy c scope proto name = do
  s ← or_error (read_map c.all_proxies scope) scope_missing
  rename_error proxy_missing (get_proxy (some s) proto name)
