-- ===== src/Dbus/Service/Manager.antt =====
-- dbus/Manager.go: what is made once for all scopes, and taken back when the last one has stopped.
use deepin_network_proxy.Prelude.{
  ℕ, true, false, none, some, [], ◌∷◌, ◌++◌, nat_eq, if◌then◌else◌, get_elem?, join_spaces, Bytes,
  codes, nat_Eq, list_Eq,
}
use deepin_network_proxy.Define.{Scope, main, scope_string, main_priority}
use deepin_network_proxy.Cgroups.Manager.{create_priority_controller}
use deepin_network_proxy.Iptables.Chain.{append_rule}
use deepin_network_proxy.Iptables.Table.{
  table_sl, init_tables, get_chain, on_chain, create_child_at, remove_chain, get_children_count,
}
use deepin_network_proxy.IpRoute.{RouteNodeSpec, RouteInfoSpec, create_route, remove_route}
use deepin_network_proxy.Dbus.Rules.{main_jump, skip_loopback, skip_main}
use deepin_network_proxy.Dbus.Service.{
  System, Act, route_failed, script_failed, ◌>>=◌, ◌>>◌, pure, fail, get, modify, ignore, deref,
  checked, on_world, on_cgroups, run_line, on_shell, of_chain,
}

-- `filepath.Join(GetConfigDir(), ScriptName)`.
abbrev pub script_path : Bytes
script_path = codes "/etc/deepin/deepin-proxy/clean_script.sh"

abbrev pub route_table : Bytes
route_table = codes "100"

abbrev pub local_node : RouteNodeSpec
local_node = record {
  typ = codes "local";
  prefix = codes "default";
  proto = [];
  scope = [];
  metric = [];
}

abbrev pub local_info : RouteInfoSpec
local_info = record { via = []; dev = codes "lo"; mtu = [] }

module _ (S : System) where
  -- `firstClean` of the manager and of a scope's proxy, with `com.RunScript`.
  unfoldable pub first_clean : Scope → Act S (Unit {0})
  first_clean scope = do
    good ← run_line (join_spaces (script_path ∷ (codes "clear_" ++ scope_string scope) ∷ []))
    if good then pure tt else fail script_failed

  -- `initCGroups`.
  unfoldable pub init_cgroups : Act S (Unit {0})
  init_cgroups = do
    modify (λ s. record s { cgroups = record { controllers = []; log = s.cgroups.log } })
    c ← on_cgroups (λ g. create_priority_controller S.make_dir g main main_priority)
    pure tt

  -- `initIptables`: the main chain is nil if it cannot be made.
  unfoldable pub init_iptables : Act S (Unit {0})
  init_iptables = do
    modify (λ s.
        let (heap, tables) = init_tables table_sl s.world.heap [] in
        record s {
          world = record s.world { heap = heap; tables = tables };
          tables_made = true;
          main_chain = none;
        })
    s ← get
    output ← deref (get_chain s.world.tables (codes "mangle") (codes "OUTPUT"))
    chain ← on_world (create_child_at S.net S.spare_rules output (scope_string main) 0 main_jump)
    modify (λ s. record s { main_chain = some chain })
    on_world
        (on_chain S.net S.spare_rules (λ c. append_rule S.net S.spare_rules c skip_loopback) chain)
    on_world (on_chain S.net S.spare_rules (λ c. append_rule S.net S.spare_rules c skip_main) chain)

  -- `initRoute`.
  unfoldable pub init_route : Act S (Unit {0})
  init_route = do
    route ← on_shell (create_route S.sh route_table local_node local_info)
    modify (λ s. record s { main_route = route })
    r ← checked route route_failed
    pure tt

  -- `Manager.Start`: once, until `release` resets it.
  unfoldable pub start : Act S (Unit {0})
  start = do
    s ← get
    if s.started then pure tt else (do
      modify (λ s. record s { started = true })
      ignore (first_clean main)
      ignore init_cgroups
      ignore init_iptables
      ignore init_route)

  -- `Chain.Remove`, called through a pointer.
  unfoldable pub remove_at : ℕ → Act S (Unit {0})
  remove_at p s = elim (remove_chain S.net S.spare_rules p s.world) [
    | none ↦ none
    | some (r, w) ↦ some (of_chain r, record s { world = w })
  ]

  -- The end of `Manager.release`, once no scope has a chain.
  unfoldable pub release_last : ℕ → Act S (Unit {0})
  release_last chain = do
    remove_at chain
    modify (λ s. record s { tables_made = false })
    s ← get
    route ← deref s.main_route
    good ← on_shell (remove_route S.sh route)
    if good then modify (λ s. record s { started = false }) else fail route_failed

  -- `Manager.release`.
  unfoldable pub release : Act S (Unit {0})
  release = do
    s ← get
    chain ← deref s.main_chain
    node ← deref (get_elem? s.world.heap chain)
    if nat_eq (get_children_count node) 0 then release_last chain else pure tt
