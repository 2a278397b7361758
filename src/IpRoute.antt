-- ===== src/IpRoute.antt =====
-- ip_route/IpRoute.go and ip_route/Manager.go: the routes and rules of policy routing, made by the
-- command `ip`. `sh line w` runs a line in the shell: whether it succeeds, and what is then there.
pub mod Text
pub mod Commands
mod Tests
use deepin_network_proxy.Prelude.{
  ◌+◌, ap, Bool, true, false, Option, none, some, List, [], ◌∷◌, ◌++◌, if◌then◌else◌, join_spaces,
  Bytes, codes, Eq, nat_Eq, list_Eq, ◌==◌,
}

pub data Action : Type 0 where
  add_action del_action : Action

-- `action.String`. Another number cannot be built here.
unfoldable pub action_string : Action → Bytes
action_string add_action = codes "add"
action_string del_action = codes "del"

pub record RouteNodeSpec : Type 0 where
  pub typ : Bytes
  pub prefix : Bytes
  pub proto : Bytes
  pub scope : Bytes
  pub metric : Bytes

-- `if value != "" { args = append(args, word, value) }`.
unfoldable pub option_args : Bytes → Bytes → List Bytes
option_args word value = if value == [] then [] else word ∷ value ∷ []

unfoldable pub node_args : RouteNodeSpec → List Bytes
node_args n =
    n.typ
    ∷ n.prefix
    ∷ (option_args (codes "protocol") n.proto
        ++ (option_args (codes "scope") n.scope ++ option_args (codes "metric") n.metric))

-- `RouteNodeSpec.String`.
unfoldable pub node_string : RouteNodeSpec → Bytes
node_string n = join_spaces (node_args n)

pub record RouteInfoSpec : Type 0 where
  pub via : Bytes
  pub dev : Bytes
  pub mtu : Bytes

unfoldable pub info_args : RouteInfoSpec → List Bytes
info_args i =
    option_args (codes "via") i.via
    ++ (option_args (codes "dev") i.dev ++ option_args (codes "mtu") i.mtu)

-- `RouteInfoSpec.String`.
unfoldable pub info_string : RouteInfoSpec → Bytes
info_string i = join_spaces (info_args i)

pub record RuleSelector : Type 0 where
  pub mark : Bool
  pub src_prefix : Bytes
  pub dest_prefix : Bytes
  pub fwmark : Bytes
  pub ip_proto : Bytes
  pub s_port : Bytes
  pub d_port : Bytes

unfoldable pub selector_args : RuleSelector → List Bytes
selector_args s =
    (if s.mark then codes "!" ∷ [] else [])
    ++ (option_args (codes "from") s.src_prefix
        ++ (option_args (codes "to") s.dest_prefix
            ++ (option_args (codes "fwmark") s.fwmark
                ++ (option_args (codes "ipproto") s.ip_proto
                    ++ (option_args (codes "sport") s.s_port
                        ++ option_args (codes "dport") s.d_port)))))

-- `RuleSelector.String`.
unfoldable pub selector_string : RuleSelector → Bytes
selector_string s = join_spaces (selector_args s)

pub record RuleAction : Type 0 where
  pub proto : Bytes
  pub nat : Bytes
  pub realms : Bytes

unfoldable pub rule_action_args : RuleAction → List Bytes
rule_action_args a =
    option_args (codes "protocol") a.proto
    ++ (option_args (codes "nat") a.nat ++ option_args (codes "realms") a.realms)

-- `RuleAction.String`.
unfoldable pub rule_action_string : RuleAction → Bytes
rule_action_string a = join_spaces (rule_action_args a)

-- `Rule`; of its route it reads the table only.
pub record Rule : Type 0 where
  pub route_table : Option Bytes
  pub rule_selector : RuleSelector
  pub rule_action : RuleAction

pub record Route : Type 0 where
  pub table : Bytes
  pub node : RouteNodeSpec
  pub info : RouteInfoSpec
  pub rules : List Rule

abbrev pub table_args : Option Bytes → List Bytes
table_args none = []
table_args (some table) = codes "table" ∷ table ∷ []

-- The line that `Rule.action` runs.
unfoldable pub rule_command : Action → Rule → Bytes
rule_command a r = join_spaces (
    codes "ip rule"
    ∷ action_string a
    ∷ selector_string r.rule_selector
    ∷ rule_action_string r.rule_action
    ∷ table_args r.route_table)

-- The line that `Route.action` runs.
unfoldable pub route_command : Action → Route → Bytes
route_command a r = join_spaces (
    codes "ip route"
    ∷ action_string a
    ∷ node_string r.node
    ∷ info_string r.info
    ∷ (if r.table == [] then [] else codes "table" ∷ r.table ∷ []))

module _ {W : Type 0} (sh : Bytes → W → Bool × W) where
  -- `Rule.create` and `Rule.Remove`.
  unfoldable pub run_rule : Action → Rule → W → Bool × W
  run_rule a r w = sh (rule_command a r) w

  -- `Route.CreateRule`: the rule that was made, if the command succeeded. The route is not changed.
  unfoldable pub create_rule : Route → RuleAction → RuleSelector → W → Option Rule × W
  create_rule route action selector w =
      let rule : Rule = record {
        route_table = some route.table;
        rule_selector = selector;
        rule_action = action;
      } in
      let (done, w') = run_rule add_action rule w in (if done then some rule else none, w')

  -- `Manager.CreateRoute`, with `Route.create`.
  unfoldable pub create_route : Bytes → RouteNodeSpec → RouteInfoSpec → W → Option Route × W
  create_route name node info w =
      let route : Route = record { table = name; node = node; info = info; rules = [] } in
      let (done, w') = sh (route_command add_action route) w in
      (if done then some route else none, w')

  -- The loop of `Route.Remove`.
  unfoldable pub remove_rules : List Rule → W → Bool × W
  remove_rules [] w = (true, w)
  remove_rules (r ∷ rs) w =
      let (done, w') = run_rule del_action r w in
      let rest = remove_rules rs w' in if done then rest else (false, w')

  -- `Route.Remove`.
  unfoldable pub remove_route : Route → W → Bool × W
  remove_route route w =
      let (done, w') = remove_rules route.rules w in
      if done then sh (route_command del_action route) w' else (false, w')
