-- ===== src/Dbus/Service/Redirect.antt =====
-- dbus/proxyPriv.go, proxyPriv_iptables.go, proxyPriv_cgroups.go and proxyPriv_route.go: how the
-- packets of a scope are sent to its listener, and no longer.
use deepin_network_proxy.Prelude.{
  ℕ, true, false, not, none, some, List, [], ◌∷◌, ◌++◌, nat_eq, if◌then◌else◌, get_elem?, Bytes,
  codes, nat_Eq, list_Eq, itoa,
}
use deepin_network_proxy.Define.{Scope, app, global, scope_string}
use deepin_network_proxy.Com.Text.{read_lines}
use deepin_network_proxy.Cgroups.{Log, get_name, get_control_path}
use deepin_network_proxy.Cgroups.Controller.{attach}
use deepin_network_proxy.Cgroups.Manager.{create_priority_controller, release_all}
use deepin_network_proxy.Iptables.Chain.{append_rule, del_rule, get_create_child_index}
use deepin_network_proxy.Iptables.Table.{
  Node, get_chain, on_chain, create_child_at, get_rules_count,
}
use deepin_network_proxy.IpRoute.{
  add_action, del_action, RuleAction, RuleSelector, create_rule, run_rule, rule_command,
}
use deepin_network_proxy.Dbus.Rules.{scope_jump, dns_rule, mark_rule, tproxy_rule}
use deepin_network_proxy.Dbus.Service.{
  CompleteRule, Fault, System, Act, no_default_chain, no_self_chain, no_dns_chain, route_failed,
  ◌>>=◌, ◌>>◌, pure, fail, panic, get, modify, modify_mgr, ignore, when, deref, checked, on_option,
  on_world, on_cgroups, run_line, on_shell, the_controller,
}
use deepin_network_proxy.Dbus.Service.Manager.{first_clean, start, remove_at, release}

-- `createTable`: the chain of the app scope comes before the rule that jumps to the global one.
unfoldable pub jump_index : Scope → Node → ℕ
jump_index app n = elim (get_create_child_index n.chain (scope_string global)) [
  | none ↦ get_rules_count n
  | some pos ↦ pos
]
jump_index _ n = get_rules_count n

abbrev pub fwmark_selector : ℕ → RuleSelector
fwmark_selector t_port = record {
  mark = false;
  src_prefix = [];
  dest_prefix = [];
  fwmark = itoa t_port;
  ip_proto = [];
  s_port = [];
  d_port = [];
}

abbrev pub no_action : RuleAction
no_action = record { proto = []; nat = []; realms = [] }

module _ (S : System) where
  -- `createCGroupController`. On an error the pointer stays what it was.
  unfoldable pub create_cgroup_controller : Act S (Unit {0})
  create_cgroup_controller = do
    s ← get
    c ← on_cgroups (λ g. create_priority_controller S.make_dir g s.mgr.scope s.mgr.priority)
    modify_mgr (λ m. record m { has_controller = true })

  abbrev pub append_at : ℕ → CompleteRule → Act S (Unit {0})
  append_at p r =
      on_world (on_chain S.net S.spare_rules (λ c. append_rule S.net S.spare_rules c r) p)

  -- `mgr.manager.iptablesMgr.GetChain`, whose result is compared with nil.
  abbrev pub default_chain : Bytes → Bytes → Fault → Act S ℕ
  default_chain table name fault = do
    s ← get
    if s.tables_made then checked (get_chain s.world.tables table name) fault else panic

  -- The part of `createTable` for the DNS queries.
  unfoldable pub redirect_dns : Act S (Unit {0})
  redirect_dns = do
    s ← get
    chain ← default_chain (codes "nat") (codes "OUTPUT") no_dns_chain
    c ← the_controller
    append_at chain (dns_rule s.mgr.scope (get_name c) s.mgr.proxies.dns_port)

  -- `createTable`.
  unfoldable pub create_table : Act S (Unit {0})
  create_table = do
    start S
    chain ← default_chain (codes "mangle") (codes "PREROUTING") no_default_chain
    s ← get
    modify_mgr (λ m. record m { default_chain = some chain })
    parent ← deref s.main_chain
    n ← deref (get_elem? s.world.heap parent)
    c ← the_controller
    child ← on_world (
        create_child_at S.net S.spare_rules parent (scope_string s.mgr.scope)
          (jump_index s.mgr.scope n) (scope_jump s.mgr.scope (get_name c)))
    modify_mgr (λ m. record m { self_chain = some child })
    when (not (nat_eq s.mgr.proxies.dns_port 0)) redirect_dns

  -- `appendRule`.
  unfoldable pub append_rules : Act S (Unit {0})
  append_rules = do
    s ← get
    own ← checked s.mgr.self_chain no_self_chain
    append_at own (mark_rule s.mgr.proxies.t_port)
    chain ← checked s.mgr.default_chain no_default_chain
    append_at chain (tproxy_rule s.mgr.proxies.t_port)

  -- `releaseRule`.
  unfoldable pub release_rule : Act S (Unit {0})
  release_rule = do
    s ← get
    own ← checked s.mgr.self_chain no_self_chain
    remove_at S own
    chain ← checked s.mgr.default_chain no_default_chain
    on_world (
        on_chain S.net S.spare_rules
          (λ c. del_rule S.net S.spare_rules c (tproxy_rule s.mgr.proxies.t_port)) chain)

  -- `createIpRule`. With a nil route the command is run without a table, and the log message panics.
  unfoldable pub create_ip_rule : Act S (Unit {0})
  create_ip_rule = do
    s ← get
    on_option s.main_route
        (do
          good ← run_line (
              rule_command add_action (record {
                route_table = none;
                rule_selector = fwmark_selector s.mgr.proxies.t_port;
                rule_action = no_action;
              }))
          panic)
        (λ route. do
          made ← on_shell (create_rule S.sh route no_action (fwmark_selector s.mgr.proxies.t_port))
          r ← checked made route_failed
          modify_mgr (λ m. record m { ip_rule = some r }))

  -- `releaseIpRule`.
  unfoldable pub release_ip_rule : Act S (Unit {0})
  release_ip_rule = do
    s ← get
    r ← deref s.mgr.ip_rule
    good ← on_shell (run_rule S.sh del_action r)
    if good then pure tt else fail route_failed

  -- The loop of `attachBackUser`: an error of one process is passed over.
  unfoldable pub attach_lines : Bytes → List Bytes → Log → Log
  attach_lines path [] log = log
  attach_lines path (line ∷ rest) log = attach_lines path rest (attach S.echoes line path log).1

  abbrev pub user_path : ℕ → Bytes
  user_path uid =
      codes "/sys/fs/cgroup/unified/user.slice/user-" ++ (itoa uid ++ codes ".slice/cgroup.procs")

  -- `attachBackUser`: its error, which comes at the end of the file too, is never looked at.
  unfoldable pub attach_back_user : Act S (Unit {0})
  attach_back_user = do
    c ← the_controller
    on_option (S.read_file (get_control_path c)) (pure tt) (λ text. modify (λ s. record s {
      cgroups = record s.cgroups {
        log = attach_lines (user_path s.mgr.uid) (read_lines text) s.cgroups.log;
      };
    }))

  -- `releaseController`.
  unfoldable pub release_controller : Act S (Unit {0})
  release_controller = do
    c ← the_controller
    on_cgroups (λ g. release_all S.echoes S.spare_procs S.spare_paths S.remove_dir g c)

  -- `startRedirect`.
  unfoldable pub start_redirect : Act S (Unit {0})
  start_redirect = do
    s ← get
    ignore (first_clean S s.mgr.scope)
    start S
    ignore create_cgroup_controller
    create_table
    append_rules
    create_ip_rule

  -- `stopRedirect`.
  unfoldable pub stop_redirect : Act S (Unit {0})
  stop_redirect = do
    release_rule
    ignore attach_back_user
    release_controller
    ignore release_ip_rule
    release S
