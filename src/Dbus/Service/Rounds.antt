-- ===== src/Dbus/Service/Rounds.antt =====
-- A start of the redirection of the app scope, where every command succeeds.
pub mod Stop
use deepin_network_proxy.Prelude.{
  set, digits_upto, lookup, insert, itoa, join_spaces, ℕ, ◌≡◌, refl, true, false, none, some, [],
  ◌∷◌, join_spaces, codes, nat_Eq, list_Eq, lookup, insert, itoa,
}
use deepin_network_proxy.Dbus.Service.Manager.{
  first_clean, start, init_cgroups, init_iptables, init_route,
}
use deepin_network_proxy.Cgroups.Manager.{
  create_priority_controller, check_controller_exist, find, sort_in,
}
use deepin_network_proxy.Iptables.Table.{
  get_chain, init_tables, init_chains, create_child_at, get_rules_count, on_chain,
}
use deepin_network_proxy.Iptables.Chain.{
  create_child, insert_rule, index_valid, exist_rule, append_rule, contains, find_jump,
  get_create_child_index,
}
use deepin_network_proxy.Com.Slices.{mega_exist, append_slice, mega_insert}
use deepin_network_proxy.Cgroups.{get_cgroup_path, get_control_path, get_name}
use deepin_network_proxy.Dbus.Service.Redirect.{
  append_rules, create_cgroup_controller, create_ip_rule, create_table, jump_index, redirect_dns,
  start_redirect,
}
use deepin_network_proxy.Define.{rank, scope_eq, scope_string, app, app_priority}
use deepin_network_proxy.IpRoute.{
  action_string, create_route, create_rule, info_args, info_string, node_args, node_string,
  option_args, route_command, rule_action_args, rule_action_string, rule_command, run_rule,
  selector_args, selector_string,
}
use deepin_network_proxy.Iptables.Rules.{base_string, elem_string, extends_string, rule_string}
use deepin_network_proxy.Iptables.Obedient.{obeyed, ran}
use deepin_network_proxy.Iptables.Rules.{CompleteRule}
use deepin_network_proxy.Config.{Proxy, ScopeProxies, ProxyConfig}
use deepin_network_proxy.Dbus.Rules.{
  main_jump, skip_loopback, skip_main, scope_jump, mark_rule, tproxy_rule, dns_rule,
}
use deepin_network_proxy.Dbus.Service.{
  ap, ok, CompleteRule, set, List, Bytes, Ran, Option, Service, done,
}
use deepin_network_proxy.Dbus.Service.Willing.{willing}

-- The service before the first start, with the state that `StartProxy` has then set.
abbrev pub first : ScopeProxies → Proxy → ProxyConfig → ℕ → Service willing
first settings p cfg uid = record {
  world = record {
    heap = [];
    tables = [];
    kernel = record { rules = λ table chain. []; chains = [] };
  };
  shell = [];
  cgroups = record { controllers = []; log = [] };
  config = cfg;
  tables_made = false;
  main_chain = none;
  main_route = none;
  started = false;
  mgr = record {
    scope = app;
    priority = app_priority;
    proxies = settings;
    proxy = p;
    enabled = true;
    listening = true;
    udp_readers = 0;
    has_controller = false;
    default_chain = none;
    self_chain = none;
    ip_rule = none;
    uid = uid;
  };
}

-- The same without a port for DNS queries.
abbrev pub settled : ScopeProxies → Proxy → ProxyConfig → ℕ → Service willing
settled settings p cfg uid = first (record settings { dns_port = 0 }) p cfg uid

-- Where every command succeeds, `startRedirect` of the app scope, the first after the service has come
-- up and without a port for DNS queries, is done, and in the mangle table the chains OUTPUT, Main, App
-- and PREROUTING have the rules that send the packets of the scope's cgroup to its listener.
pub start_redirect_rules :
    (settings : ScopeProxies) (p : Proxy) (cfg : ProxyConfig) (uid : ℕ)
    → (s : Service willing) × (start_redirect willing (settled settings p cfg uid)
        ≡ some (done tt, s))
      × (s.world.kernel.rules (codes "mangle") (codes "OUTPUT") ≡ main_jump ∷ [])
      × (s.world.kernel.rules (codes "mangle") (codes "Main")
          ≡ skip_loopback ∷ skip_main ∷ scope_jump app (codes "App.slice") ∷ [])
      × (s.world.kernel.rules (codes "mangle") (codes "App") ≡ mark_rule settings.t_port ∷ [])
      × (s.world.kernel.rules (codes "mangle") (codes "PREROUTING")
          ≡ tproxy_rule settings.t_port ∷ [])
unfolding start_redirect first_clean start init_cgroups create_priority_controller
    check_controller_exist init_iptables get_chain lookup init_tables insert init_chains
    create_child_at create_child insert_rule index_valid exist_rule mega_exist find sort_in
    get_cgroup_path get_control_path get_name append_slice mega_insert dns_rule main_jump mark_rule
    scope_jump skip_loopback skip_main tproxy_rule init_route append_rules create_cgroup_controller
    create_ip_rule create_table jump_index redirect_dns rank scope_eq scope_string action_string
    create_route create_rule info_args info_string node_args node_string option_args route_command
    rule_action_args rule_action_string rule_command run_rule selector_args selector_string
    append_rule contains find_jump get_create_child_index base_string elem_string extends_string
    rule_string get_rules_count on_chain digits_upto itoa join_spaces obeyed ran
start_redirect_rules settings p cfg uid = (_, refl, refl, refl, refl, refl)

-- The state that a method leaves, where it is done.
abbrev pub left : Service willing → Option (Ran (Unit {0}) × Service willing) → Service willing
left s (some (done _, s')) = s'
left s _ = s

abbrev pub rules_of :
    Option (Ran (Unit {0}) × Service willing) → Bytes → Bytes → Option (List CompleteRule)
rules_of (some (done _, s)) table chain = some (s.world.kernel.rules table chain)
rules_of _ table chain = none

-- The chains that have been created and not deleted then.
abbrev pub chains_of : Option (Ran (Unit {0}) × Service willing) → Option (List (Bytes × Bytes))
chains_of (some (done _, s)) = some s.world.kernel.chains
chains_of _ = none

-- The state that a start leaves.
abbrev pub running : ScopeProxies → Proxy → ProxyConfig → ℕ → Service willing
running settings p cfg uid = let s = settled settings p cfg uid in left s (start_redirect willing s)
