-- ===== src/Dbus/Service/Rounds/Stop.antt =====
-- The stop of that redirection.
use deepin_network_proxy.Prelude.{
  ◌∙◌, set, delete, ==_refl, split_on, split_on, lookup, insert, join_spaces, ℕ, ◌≡◌, refl, true,
  none, some, [], ◌∷◌, join_spaces, codes, nat_Eq, list_Eq, lookup, insert,
}
use deepin_network_proxy.Dbus.Service.Manager.{
  first_clean, start, init_cgroups, init_iptables, init_route,
}
use deepin_network_proxy.Cgroups.Manager.{
  create_priority_controller, check_controller_exist, find, sort_in,
}
use deepin_network_proxy.Iptables.Table.{
  get_chain, init_tables, init_chains, create_child_at, get_rules_count, on_chain,
}
use deepin_network_proxy.Iptables.Chain.{
  create_child, insert_rule, index_valid, exist_rule, append_rule, contains, find_jump,
  get_create_child_index,
}
use deepin_network_proxy.Com.Slices.{mega_exist, append_slice, mega_insert}
use deepin_network_proxy.Cgroups.{get_cgroup_path, get_control_path, get_name}
use deepin_network_proxy.Dbus.Service.Redirect.{
  stop_redirect, append_rules, create_cgroup_controller, create_ip_rule, create_table, jump_index,
  redirect_dns, start_redirect,
}
use deepin_network_proxy.Define.{rank, scope_eq, scope_string}
use deepin_network_proxy.IpRoute.{
  action_string, create_route, create_rule, info_args, info_string, node_args, node_string,
  option_args, route_command, rule_action_args, rule_action_string, rule_command, run_rule,
  selector_args, selector_string,
}
use deepin_network_proxy.Iptables.Rules.{base_string, elem_string, extends_string, rule_string}
use deepin_network_proxy.Iptables.Obedient.{obeyed, ran, chains_after, without_chain}
use deepin_network_proxy.Dbus.Service.Redirect.{
  release_rule, attach_back_user, attach_lines, release_controller, release_ip_rule,
}
use deepin_network_proxy.Dbus.Service.Manager.{release, release_last, remove_at}
use deepin_network_proxy.Iptables.Table.{
  remove_chain, remove, detach, clear_with, remove_all, run_removes, del_child_at, child_name,
  get_children_count,
}
use deepin_network_proxy.Iptables.Chain.{
  del_rule, clear_rules, del_child, del_rule_by_index, get_rule_by_index,
}
use deepin_network_proxy.Com.Slices.{mega_del, find_index}
use deepin_network_proxy.Cgroups.Manager.{release_all, release_loop}
use deepin_network_proxy.Com.Text.{read_lines, ended_lines, drop_return}
use deepin_network_proxy.Cgroups.Controller.{attach}
use deepin_network_proxy.IpRoute.{remove_route, remove_rules}
use deepin_network_proxy.Iptables.Kernel.{deletes}
use deepin_network_proxy.Iptables.Table.{World, Node, Outcome}
use deepin_network_proxy.Iptables.Obedient.{obedient, no_spare}
use deepin_network_proxy.Iptables.Rules.{CompleteRule, rule_Eq}
use deepin_network_proxy.Cgroups.Manager.{
  put, release_to_manager, get_controller_by_ctl_path, move_in_at,
}
use deepin_network_proxy.Cgroups.Controller.{
  add_ctrl_proc, add_missing, attach_all, check_ctl_path_sl, check_ctl_proc_exist, del_ctl_app_path,
  move_in, move_out,
}
use deepin_network_proxy.Com.Pid.{is_pid, match_pid}
use deepin_network_proxy.Com.Slices.Delete.{remove_first}
use deepin_network_proxy.Config.{Proxy, ScopeProxies, ProxyConfig}
use deepin_network_proxy.Dbus.Rules.{
  main_jump, skip_loopback, skip_main, scope_jump, tproxy_rule, dns_rule,
}
use deepin_network_proxy.Dbus.Service.{
  ◌>>◌, Act, after, ignore, of_chain, ap, ok, get_elem?, CompleteRule, set, List, delete, Bytes,
  Option, Ran, Service, done,
}
use deepin_network_proxy.Dbus.Service.Willing.{willing}
use deepin_network_proxy.Dbus.Service.Rounds.{left, rules_of, chains_of, settled, running}

mega_del_only :
    (r : CompleteRule)
    → mega_del no_spare (record { array = r ∷ []; len = 1 }) r
      ≡ (record { array = r ∷ []; len = 0 }, true, r ∷ [])
unfolding mega_del find_index
mega_del_only r = rw (mega_del, find_index, ==_refl r) refl

del_rule_only :
    (w : World obedient no_spare) (p : ℕ) (n : Node) (r : CompleteRule)
    → get_elem? w.heap p ≡ some n
    → n.chain.cpl_rule_sl ≡ record { array = r ∷ []; len = 1 }
    → on_chain obedient no_spare (λ c. del_rule obedient no_spare c r) p w ≡ (
      ok tt,
      record w {
        heap = set w.heap p (record n {
          chain = record n.chain { cpl_rule_sl = record { array = r ∷ []; len = 0 } };
        });
        kernel = ran n.chain.table (deletes r) n.chain.name w.kernel;
      },
    )
unfolding on_chain del_rule exist_rule mega_exist
del_rule_only w p n r e only =
    rw (on_chain, e) (rw (del_rule, only) (rw (==_refl r) (rw (mega_del_only r) refl)))

-- What is there when the scope's own chain has been removed, and then the rule of PREROUTING.
abbrev unchained : ScopeProxies → Proxy → ProxyConfig → ℕ → Service willing
unchained settings p cfg uid = let s = running settings p cfg uid in left s (remove_at willing 14 s)

unruled : ScopeProxies → Proxy → ProxyConfig → ℕ → Service willing
unruled settings p cfg uid =
    let s = unchained settings p cfg uid in
    record s {
      world = record s.world {
        heap = set s.world.heap 2 (record {
          chain = record {
            name = codes "PREROUTING";
            table = codes "mangle";
            cpl_rule_sl = record { array = tproxy_rule settings.t_port ∷ []; len = 0 };
          };
          parent = none;
          children = [];
        });
        kernel =
            ran (codes "mangle") (deletes (tproxy_rule settings.t_port)) (codes "PREROUTING")
              s.world.kernel;
      };
    }

release_rule-running :
    (settings : ScopeProxies) (p : Proxy) (cfg : ProxyConfig) (uid : ℕ)
    → release_rule willing (running settings p cfg uid) ≡ some (done tt, unruled settings p cfg uid)
unfolding start_redirect first_clean start init_cgroups create_priority_controller
    check_controller_exist init_iptables get_chain lookup init_tables insert init_chains
    create_child_at create_child insert_rule index_valid exist_rule mega_exist find sort_in
    get_cgroup_path get_control_path get_name append_slice mega_insert dns_rule main_jump scope_jump
    skip_loopback skip_main init_route append_rules create_cgroup_controller create_ip_rule
    create_table jump_index redirect_dns rank scope_eq scope_string action_string create_route
    create_rule info_args info_string node_args node_string option_args route_command
    rule_action_args rule_action_string rule_command run_rule selector_args selector_string
    append_rule contains find_jump get_create_child_index base_string elem_string extends_string
    rule_string get_rules_count on_chain join_spaces obeyed ran stop_redirect release_rule
    attach_back_user attach_lines release_controller release_ip_rule release release_last remove_at
    remove_chain remove detach clear_with remove_all run_removes del_child_at child_name
    get_children_count clear_rules del_rule_by_index get_rule_by_index release_all release_loop
    read_lines ended_lines drop_return attach remove_route remove_rules split_on delete del_child
    unruled del_rule mega_del find_index
release_rule-running settings p cfg uid =
    let s = unchained settings p cfg uid in
    let n : Node = record {
      chain = record {
        name = codes "PREROUTING";
        table = codes "mangle";
        cpl_rule_sl = record { array = tproxy_rule settings.t_port ∷ []; len = 1 };
      };
      parent = none;
      children = [];
    } in
    ap (λ (x : Outcome × World obedient no_spare). some (of_chain x.0, record s { world = x.1 }))
      (del_rule_only s.world 2 n (tproxy_rule settings.t_port) refl refl)

-- The rest of `stopRedirect`.
abbrev stop_rest : Act willing (Unit {0})
stop_rest = do
  ignore (attach_back_user willing)
  release_controller willing
  ignore (release_ip_rule willing)
  release willing

remove_only : (r : CompleteRule) → remove_first r (r ∷ []) ≡ []
unfolding remove_first
remove_only r = rw (remove_first, ==_refl r) refl

module _ (settings : ScopeProxies) (p : Proxy) (cfg : ProxyConfig) (uid : ℕ) where
  -- The kernel's rules after a start and a stop.
  abbrev pub rules_left : Bytes → Bytes → Option (List CompleteRule)
  rules_left table chain =
      rules_of ((start_redirect willing >> stop_redirect willing) (settled settings p cfg uid))
        table chain

  -- The chains that have been created and not deleted then.
  abbrev pub chains_left : Option (List (Bytes × Bytes))
  chains_left =
      chains_of ((start_redirect willing >> stop_redirect willing) (settled settings p cfg uid))

  round-stop_rest :
      (start_redirect willing >> stop_redirect willing) (settled settings p cfg uid)
      ≡ stop_rest (unruled settings p cfg uid)
  unfolding start_redirect first_clean start init_cgroups create_priority_controller
      check_controller_exist init_iptables get_chain lookup init_tables insert init_chains
      create_child_at create_child insert_rule index_valid exist_rule mega_exist find sort_in
      get_cgroup_path get_control_path get_name append_slice mega_insert dns_rule main_jump
      scope_jump skip_loopback skip_main init_route append_rules create_cgroup_controller
      create_ip_rule create_table jump_index redirect_dns rank scope_eq scope_string action_string
      create_route create_rule info_args info_string node_args node_string option_args route_command
      rule_action_args rule_action_string rule_command run_rule selector_args selector_string
      append_rule contains find_jump get_create_child_index base_string elem_string extends_string
      rule_string get_rules_count on_chain join_spaces obeyed ran stop_redirect release_rule
      attach_back_user attach_lines release_controller release_ip_rule release release_last
      remove_at remove_chain remove detach clear_with remove_all run_removes del_child_at child_name
      get_children_count clear_rules del_rule_by_index get_rule_by_index release_all release_loop
      read_lines ended_lines drop_return attach remove_route remove_rules split_on delete del_child
      del_rule mega_del find_index remove_first is_pid match_pid put release_to_manager
      get_controller_by_ctl_path move_in_at add_ctrl_proc add_missing attach_all check_ctl_path_sl
      check_ctl_proc_exist del_ctl_app_path move_in move_out
  round-stop_rest =
      ap (λ (x : Option (Ran (Unit {0}) × Service willing)). after x (λ _. stop_rest))
        (release_rule-running settings p cfg uid)

  -- In a system where every command succeeds, `stopRedirect` takes back the rules and the chains of the
  -- first `startRedirect` of the app scope, without a port for DNS queries, in the mangle table: both are
  -- done, the chains OUTPUT, Main, App and PREROUTING have no rule, and no created chain is left, where
  -- the start alone leaves Main and App.
  pub stop_redirect-start_redirect :
      (chains_of (start_redirect willing (settled settings p cfg uid))
        ≡ some ((codes "mangle", codes "Main") ∷ (codes "mangle", codes "App") ∷ []))
      × (chains_left ≡ some [])
      × (rules_left (codes "mangle") (codes "OUTPUT") ≡ some [])
      × (rules_left (codes "mangle") (codes "Main") ≡ some [])
      × (rules_left (codes "mangle") (codes "App") ≡ some [])
      × (rules_left (codes "mangle") (codes "PREROUTING") ≡ some [])
  unfolding start_redirect first_clean start init_cgroups create_priority_controller
      check_controller_exist init_iptables get_chain lookup init_tables insert init_chains
      create_child_at create_child insert_rule index_valid exist_rule mega_exist find sort_in
      get_cgroup_path get_control_path get_name append_slice mega_insert dns_rule main_jump
      scope_jump skip_loopback skip_main init_route append_rules create_cgroup_controller
      create_ip_rule create_table jump_index redirect_dns rank scope_eq scope_string action_string
      create_route create_rule info_args info_string node_args node_string option_args route_command
      rule_action_args rule_action_string rule_command run_rule selector_args selector_string
      append_rule contains find_jump get_create_child_index base_string elem_string extends_string
      rule_string get_rules_count on_chain join_spaces obeyed ran stop_redirect release_rule
      attach_back_user attach_lines release_controller release_ip_rule release release_last
      remove_at remove_chain remove detach clear_with remove_all run_removes del_child_at child_name
      get_children_count clear_rules del_rule_by_index get_rule_by_index release_all release_loop
      read_lines ended_lines drop_return attach remove_route remove_rules split_on delete del_child
      unruled del_rule mega_del find_index remove_first is_pid match_pid put release_to_manager
      get_controller_by_ctl_path move_in_at add_ctrl_proc add_missing attach_all check_ctl_path_sl
      check_ctl_proc_exist del_ctl_app_path move_in move_out chains_after without_chain
  stop_redirect-start_redirect = (
    refl,
    ap chains_of round-stop_rest,
    ap (λ x. rules_of x (codes "mangle") (codes "OUTPUT")) round-stop_rest,
    ap (λ x. rules_of x (codes "mangle") (codes "Main")) round-stop_rest,
    ap (λ x. rules_of x (codes "mangle") (codes "App")) round-stop_rest,
    ap (λ x. rules_of x (codes "mangle") (codes "PREROUTING")) round-stop_rest
        ∙ ap some (remove_only (tproxy_rule settings.t_port)),
  )
