-- ===== src/Dbus/Startup.antt =====
-- How the service starts: main of out/dde-proxy, Init, LoadConfig and Export of dbus/Manager.go,
-- initProxyPrv of dbus/proxyPriv.go, newProxy of dbus/BaseProxy.go, and export of dbus/AppProxy.go. What the
-- bus answers is a parameter, and the disk is that of Config.File.
use deepin_network_proxy.Prelude.{
  ◌≡◌, refl, ap, ◌≢◌, Bool, true, false, not, Option, none, some, List, [], ◌∷◌, ◌++◌,
  if◌then◌else◌, Bytes, codes, nat_Eq, list_Eq, ◌==◌, ok,
}
use deepin_network_proxy.Config.{Proxy, no_proxy, ScopeProxies, ProxyConfig, set_scope_proxies}
use deepin_network_proxy.Config.File.{
  Disk, IsLawful, Survives, load_config, load_scope, write_scope,
}
use deepin_network_proxy.Config.File.Restart.{load_scope-write_scope}
use deepin_network_proxy.Define.{
  Scope, main, app, global, scope_string, scope_eq, Priority, app_priority, global_priority,
}
use deepin_network_proxy.Dbus.Service.{ProxyPrv}

-- Whether the system bus is there, takes an object at a path, and gives a name.
pub record Bus : Type 0 where
  pub connects : Bool
  pub exports : Bytes → Bool
  pub requests : Bytes → Bool

-- `initProxyPrv`.
unfoldable pub init_proxy_prv : Scope → Priority → ProxyPrv
init_proxy_prv scope priority = record {
  scope = scope;
  priority = priority;
  proxies = record {
    proxies = some [];
    proxy_program = [];
    no_proxy_program = [];
    white_list = [];
    t_port = 0;
    dns_port = 0;
    use_fake_ip = false;
  };
  proxy = no_proxy;
  enabled = false;
  listening = false;
  udp_readers = 0;
  has_controller = false;
  default_chain = none;
  self_chain = none;
  ip_rule = none;
  uid = 0;
}

-- `newProxy`, with NewAppProxy and NewGlobalProxy: nil for another scope.
unfoldable pub new_proxy : Scope → Option ProxyPrv
new_proxy app = some (init_proxy_prv app app_priority)
new_proxy global = some (init_proxy_prv global global_priority)
new_proxy main = none

unfoldable pub bus_service_name : Bytes
bus_service_name = codes "com.deepin.system.proxy"

-- `getDBusPath` and `GetInterfaceName`.
unfoldable pub get_dbus_path : Scope → Bytes
get_dbus_path scope = codes "/com/deepin/system/proxy" ++ (codes "/" ++ scope_string scope)

unfoldable pub get_interface_name : Scope → Bytes
get_interface_name scope = bus_service_name ++ (codes "." ++ scope_string scope)

-- `GetProxy`: the empty text where no proxy has been chosen. `json` is `MarshalJson`.
unfoldable pub get_proxy_text : (Proxy → Option Bytes) → ProxyPrv → Option Bytes
get_proxy_text json m = if m.proxy.proto_type == [] then some [] else json m.proxy

-- What the start has done, in order.
pub data Effect : Type 0 where
  connected : Effect
  exported requested : Bytes → Effect

-- The manager, and whether `main` has come to wait for calls.
pub record Started : Type 0 where
  pub effects : List Effect
  pub config : Option ProxyConfig
  pub handler : List ProxyPrv
  pub waits : Bool

-- `proxyPrv.loadConfig`.
unfoldable pub load_prv : ProxyConfig → ProxyPrv → ProxyPrv
load_prv c m = record m { proxies = load_scope c m.scope }

-- `Manager.Export` behind the making of the App proxy, and `main` behind it.
unfoldable pub export : Bus → ProxyConfig → ProxyPrv → Started
export B c m =
    let path = get_dbus_path m.scope in
    if not (B.exports path)
    then record { effects = connected ∷ []; config = some c; handler = []; waits = false }
    else if not (B.requests bus_service_name)
    then record {
      effects = connected ∷ exported path ∷ [];
      config = some c;
      handler = m ∷ [];
      waits = false;
    }
    else record {
      effects = connected ∷ exported path ∷ requested bus_service_name ∷ [];
      config = some c;
      handler = m ∷ [];
      waits = true;
    }

module _ (D : Disk) where
  -- `main`. `none` is a panic: the proxy is nil.
  unfoldable pub run_main : Bus → D.State → Option Started
  run_main B s =
      if not B.connects
      then some (record { effects = []; config = none; handler = []; waits = false })
      else elim (new_proxy app) [
        | none ↦ none
        | some m ↦ let c = (load_config D s).1 in some (export B c (load_prv c m))
      ]

  -- A start after the App proxy has written its settings with success offers just an App proxy, with
  -- these settings, where the bus is there, takes the object and gives the name, the disk keeps what is
  -- written, the configuration had a map of proxies, and the YAML library gives back the
  -- configuration that it was given.
  pub run_main-write_scope :
      IsLawful D
      → (B : Bus) (c : ProxyConfig) (p : ScopeProxies) (s : D.State) → c.all_proxies ≢ none
      → Survives D (set_scope_proxies c app p)
      → (write_scope D c app p s).1 ≡ ok tt
      → B.connects ≡ true
      → B.exports (get_dbus_path app) ≡ true
      → B.requests bus_service_name ≡ true
      → (r : Started) × (run_main B (write_scope D c app p s).2 ≡ some r)
        × (r.handler ≡ record (init_proxy_prv app app_priority) { proxies = p } ∷ [])
  unfolding run_main export load_prv new_proxy init_proxy_prv scope_eq
  run_main-write_scope law B c p s made back e up takes gives =
      let same = load_scope-write_scope D law c app app p s made back e in
      let l : ProxyConfig = (load_config D (write_scope D c app p s).2).1 in
      (
        export B l (load_prv l (init_proxy_prv app app_priority)),
        rw up refl,
        rw (takes, gives)
            (ap
              (λ (q : ScopeProxies). record (init_proxy_prv app app_priority) { proxies = q } ∷ [])
              same),
      )
