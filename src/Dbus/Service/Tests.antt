-- ===== src/Dbus/Service/Tests.antt =====
-- The service in a system where every command succeeds, the chains being those of a fresh start.
use deepin_network_proxy.Prelude.{
  ◌≡◌, true, false, Option, none, some, List, [], ◌∷◌, Bytes, codes, nat_Eq, list_Eq,
}
use mathlib.Core.Option.{none-ne-some}
use deepin_network_proxy.Define.{app, app_priority}
use deepin_network_proxy.Config.{ProxyConfig, Proxy, ScopeProxies, no_proxy}
use deepin_network_proxy.Iptables.Table.Shape.{IsTree}
use deepin_network_proxy.Dbus.Rules.{tproxy_rule}
use deepin_network_proxy.Dbus.Service.{done, Service}
use deepin_network_proxy.Dbus.Service.Willing.{willing}
use deepin_network_proxy.Dbus.Rules.{main_jump, skip_loopback, skip_main, scope_jump, mark_rule}
use deepin_network_proxy.Dbus.Service.Redirect.{start_redirect}
use deepin_network_proxy.Dbus.Service.Rounds.{chains_of, settled, start_redirect_rules}
use deepin_network_proxy.Dbus.Service.Rounds.Stop.{
  chains_left, rules_left, stop_redirect-start_redirect,
}
use deepin_network_proxy.Dbus.Service.Calls.{
  Caller, caller, Call, starts, stops, sets, start_proxy, serve,
}
use deepin_network_proxy.Dbus.Service.Ends.Calls.{serve_ends}
use deepin_network_proxy.Dbus.Service.Leaks.{start_proxy_udp}

abbrev home : Proxy
home = record no_proxy { proto_type = codes "socks5"; name = codes "home" }

abbrev browser : Bytes
browser = codes "/usr/bin/browser"

abbrev stored : ScopeProxies
stored = record {
  proxies = some ((codes "socks5", home ∷ []) ∷ []);
  proxy_program = browser ∷ [];
  no_proxy_program = [];
  white_list = [];
  t_port = 8090;
  dns_port = 0;
  use_fake_ip = false;
}

abbrev idle : Service willing
idle = record {
  world = record {
    heap = [];
    tables = [];
    kernel = record { rules = λ table chain. []; chains = [] };
  };
  shell = [];
  cgroups = record { controllers = []; log = [] };
  config = record { all_proxies = some [] };
  tables_made = false;
  main_chain = none;
  main_route = none;
  started = false;
  mgr = record {
    scope = app;
    priority = app_priority;
    proxies = stored;
    proxy = no_proxy;
    enabled = false;
    listening = false;
    udp_readers = 0;
    has_controller = false;
    default_chain = none;
    self_chain = none;
    ip_rule = none;
    uid = 0;
  };
}

abbrev me : Caller
me = caller 1000 1000

idle-IsTree : IsTree idle.world.heap
idle-IsTree = record { behind = λ p n e. absurd (none-ne-some n e) }

-- A start, other settings, and a stop.
abbrev session : List Call
session =
    starts me true (codes "socks5") (codes "home") false
    ∷ sets (record stored { t_port = 9090 })
    ∷ stops true
    ∷ []

serve_ends_example :
    (s' : Service willing) × (serve willing session idle ≡ some s') × IsTree s'.world.heap
serve_ends_example = serve_ends willing session idle idle-IsTree

start_proxy_udp_example :
    start_proxy willing me true (codes "socks5") (codes "home") true idle
    ≡ start_proxy willing me true (codes "socks5") (codes "home") false idle
start_proxy_udp_example = start_proxy_udp willing me true (codes "socks5") (codes "home") idle

abbrev find_browser : Bytes → Option Bytes
find_browser name = some browser

abbrev no_scopes : ProxyConfig
no_scopes = record { all_proxies = some [] }

start_redirect_rules_example :
    (s : Service willing) × (start_redirect willing (settled stored home no_scopes 1000)
      ≡ some (done tt, s))
    × (s.world.kernel.rules (codes "mangle") (codes "OUTPUT") ≡ main_jump ∷ [])
    × (s.world.kernel.rules (codes "mangle") (codes "Main")
        ≡ skip_loopback ∷ skip_main ∷ scope_jump app (codes "App.slice") ∷ [])
    × (s.world.kernel.rules (codes "mangle") (codes "App") ≡ mark_rule 8090 ∷ [])
    × (s.world.kernel.rules (codes "mangle") (codes "PREROUTING") ≡ tproxy_rule 8090 ∷ [])
start_redirect_rules_example = start_redirect_rules stored home no_scopes 1000

stop_redirect-start_redirect_example :
    (chains_of (start_redirect willing (settled stored home no_scopes 1000))
      ≡ some ((codes "mangle", codes "Main") ∷ (codes "mangle", codes "App") ∷ []))
    × (chains_left stored home no_scopes 1000 ≡ some [])
    × (rules_left stored home no_scopes 1000 (codes "mangle") (codes "OUTPUT") ≡ some [])
    × (rules_left stored home no_scopes 1000 (codes "mangle") (codes "Main") ≡ some [])
    × (rules_left stored home no_scopes 1000 (codes "mangle") (codes "App") ≡ some [])
    × (rules_left stored home no_scopes 1000 (codes "mangle") (codes "PREROUTING") ≡ some [])
stop_redirect-start_redirect_example = stop_redirect-start_redirect stored home no_scopes 1000
