-- ===== src/Dbus/Service/Ends/Calls.antt =====
-- The methods of dbus/ come to an end, one by one, and any sequence of them.
use deepin_network_proxy.Prelude.{
  ◌≡◌, refl, ok, err, [], ◌∷◌, List, some, none, Option, ℕ, nat_Eq, list_Eq,
}
use deepin_network_proxy.Define.{Scope}
use deepin_network_proxy.Iptables.Table.{table_sl, init_tables}
use deepin_network_proxy.Iptables.Table.Child.{init_tables-IsTree}
use deepin_network_proxy.Dbus.Service.{
  true, Ran, done, failed, panicked, ◌∷◌, some, ok, Service, Bytes, List, Option, Bool, Result,
  System, modify,
}
use deepin_network_proxy.Dbus.Service.Manager.{
  first_clean, init_cgroups, init_iptables, init_route, start, release_last, release,
}
use deepin_network_proxy.Dbus.Service.Redirect.{
  stop_redirect, start_redirect, release_controller, attach_back_user, release_ip_rule,
  create_ip_rule, create_cgroup_controller, redirect_dns, create_table, append_rules, release_rule,
}
use deepin_network_proxy.Config.{ConfigError}
use deepin_network_proxy.Dbus.Service.Calls.{
  Call, starts, stops, adds, sets, clears, turns, call, next, serve, Caller, no_bus, no_uid,
  no_user, caller, know_caller, of_config, listen, listen_packet, stop_proxy, start_proxy,
  write_config, add_proxy, set_proxies, clear_proxies,
}
use deepin_network_proxy.Dbus.Service.Ends.{
  Ends-pure, IsTree, Fine, Ends-modify_mgr, Ends-fail, Ends, ends, Ends-modify,
}

module _ {S : System} where
  first_clean-Ends : (scope : Scope) → Ends (first_clean S scope)
  unfolding first_clean
  first_clean-Ends scope = search ends

  init_cgroups-Ends : Ends (init_cgroups S)
  unfolding init_cgroups
  init_cgroups-Ends = search (ends, Ends-modify)

  -- `Init` makes trees of chains, behind those that are there.
  fresh_tables-Ends : Ends {S = S} (
      modify (λ s.
        let (heap, tables) = init_tables table_sl s.world.heap [] in
        record s {
          world = record s.world { heap = heap; tables = tables };
          tables_made = true;
          main_chain = none;
        }))
  fresh_tables-Ends = record { fine = λ s t. init_tables-IsTree table_sl s.world.heap [] t }

  init_iptables-Ends : Ends (init_iptables S)
  unfolding init_iptables
  init_iptables-Ends = search (ends, Ends-modify, fresh_tables-Ends) depth 14

  init_route-Ends : Ends (init_route S)
  unfolding init_route
  init_route-Ends = search (ends, Ends-modify) depth 12

  start-Ends : Ends (start S)
  unfolding start
  start-Ends =
      search
        (
          ends, Ends-modify, first_clean-Ends, init_cgroups-Ends, init_iptables-Ends,
          init_route-Ends,
        )
        depth 12

  release_last-Ends : (chain : ℕ) → Ends (release_last S chain)
  unfolding release_last
  release_last-Ends chain = search (ends, Ends-modify) depth 12

  release-Ends : Ends (release S)
  unfolding release
  release-Ends = search (ends, release_last-Ends)

  create_cgroup_controller-Ends : Ends (create_cgroup_controller S)
  unfolding create_cgroup_controller
  create_cgroup_controller-Ends = search ends

  redirect_dns-Ends : Ends (redirect_dns S)
  unfolding redirect_dns
  redirect_dns-Ends = search ends

  create_table-Ends : Ends (create_table S)
  unfolding create_table
  create_table-Ends = search (ends, start-Ends, redirect_dns-Ends) depth 14

  append_rules-Ends : Ends (append_rules S)
  unfolding append_rules
  append_rules-Ends = search ends

  release_rule-Ends : Ends (release_rule S)
  unfolding release_rule
  release_rule-Ends = search ends

  create_ip_rule-Ends : Ends (create_ip_rule S)
  unfolding create_ip_rule
  create_ip_rule-Ends = search ends depth 10

  release_ip_rule-Ends : Ends (release_ip_rule S)
  unfolding release_ip_rule
  release_ip_rule-Ends = search ends depth 10

  attach_back_user-Ends : Ends (attach_back_user S)
  unfolding attach_back_user
  attach_back_user-Ends = search (ends, Ends-modify) depth 10

  release_controller-Ends : Ends (release_controller S)
  unfolding release_controller
  release_controller-Ends = search ends

  start_redirect-Ends : Ends (start_redirect S)
  unfolding start_redirect
  start_redirect-Ends =
      search
        (
          ends, first_clean-Ends, start-Ends, create_cgroup_controller-Ends, create_table-Ends,
          append_rules-Ends, create_ip_rule-Ends,
        )
        depth 14

  stop_redirect-Ends : Ends (stop_redirect S)
  unfolding stop_redirect
  stop_redirect-Ends =
      search
        (
          ends, release_rule-Ends, attach_back_user-Ends, release_controller-Ends,
          release_ip_rule-Ends, release-Ends,
        )
        depth 14

  know_caller-Ends : (who : Caller) → Ends (know_caller S who)
  unfolding know_caller
  know_caller-Ends no_bus = Ends-fail _
  know_caller-Ends no_uid = search ends
  know_caller-Ends (no_user uid) = search ends
  know_caller-Ends (caller uid gid) = Ends-modify_mgr _

  of_config-Ends : {A : Type 0} (r : Result ConfigError A) → Ends (of_config S r)
  of_config-Ends (ok a) = Ends-pure a
  of_config-Ends (err e) = Ends-fail _

  stop_proxy-Ends : (dns : Bool) → Ends (stop_proxy S dns)
  unfolding stop_proxy
  stop_proxy-Ends dns = search (ends, stop_redirect-Ends) depth 12

  listen-Ends : Ends (listen S)
  unfolding listen
  listen-Ends = search ends

  listen_packet-Ends : Ends (listen_packet S)
  unfolding listen_packet
  listen_packet-Ends = search ends

  start_proxy-Ends :
      (who : Caller) (dns : Bool) (proto name : Bytes) (udp : Bool)
      → Ends (start_proxy S who dns proto name udp)
  unfolding start_proxy
  start_proxy-Ends who dns proto name udp =
      search
        (
          ends, know_caller-Ends, of_config-Ends, stop_proxy-Ends, listen-Ends, listen_packet-Ends,
          start_redirect-Ends,
        )
        depth 18

  write_config-Ends : Ends (write_config S)
  unfolding write_config
  write_config-Ends = search (ends, Ends-modify) depth 10

module _ (S : System) where
  call-Ends : (c : Call) → Ends (call S c)
  unfolding call add_proxy set_proxies clear_proxies
  call-Ends (starts who dns proto name udp) = start_proxy-Ends who dns proto name udp
  call-Ends (stops dns) = stop_proxy-Ends dns
  call-Ends (adds proto name p) = Ends-modify_mgr _
  call-Ends (sets proxies) = search (ends, write_config-Ends)
  call-Ends clears = search (ends, write_config-Ends)
  call-Ends (turns m) = Ends-modify_mgr _

  next-Tree :
      (x : Option (Ran (Unit {0}) × Service S)) (f : Service S → Option (Service S))
      → Fine x
      → ((s : Service S)
          → IsTree s.world.heap
          → (s' : Service S) × (f s ≡ some s') × IsTree s'.world.heap)
      → (s' : Service S) × (next S x f ≡ some s') × IsTree s'.world.heap
  next-Tree none f h k = absurd h
  next-Tree (some (done _, s)) f h k = k s h
  next-Tree (some (failed e, s)) f h k = k s h
  next-Tree (some (panicked, s)) f h k = (s, refl, h)

  -- Any sequence of the calls StartProxy, StopProxy, AddProxy, SetProxies and ClearProxies, of any
  -- scopes, comes to its end or to a panic, whatever the commands and the shell do, where each chain's
  -- children stand behind it in the heap and have it as their parent, and so they do then.
  pub serve_ends :
      (cs : List Call) (s : Service S)
      → IsTree s.world.heap
      → (s' : Service S) × (serve S cs s ≡ some s') × IsTree s'.world.heap
  unfolding serve
  serve_ends [] s t = (s, refl, t)
  serve_ends (c ∷ cs) s t =
      next-Tree (call S c s) (serve S cs) ((call-Ends c).fine s t) (serve_ends cs)
