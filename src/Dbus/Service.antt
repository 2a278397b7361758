-- ===== src/Dbus/Service.antt =====
-- dbus/: what the service and one scope's proxy hold, and the effects of their methods. A method is a
-- function of the state: it is done, fails with an error, or panics, and the state is as it is then.
-- `none` is a removal of chains that has no fuel left, which Service.Ends rules out.
-- The controller that a pointer leads to is found by its scope in the list of the controllers; a
-- pointer to a controller of an earlier list is outside the model, `no_controller`.
pub mod Manager
pub mod Redirect
pub mod Calls
pub mod Apps
pub mod Ends
pub mod Leaks
pub mod Willing
pub mod Rounds
mod Tests
use deepin_network_proxy.Prelude.{
  ℕ, ap, Bool, true, not, Option, none, some, List, ◌∷◌, if◌then◌else◌, get_elem?, set, Bytes, Eq,
  nat_Eq, list_Eq, delete, Result, ok, err,
}
use deepin_network_proxy.Define.{Scope, Priority}
use deepin_network_proxy.Config.{Proxy, ScopeProxies, ProxyConfig, ConfigError}
use deepin_network_proxy.Cgroups.{Proc, Control, CgroupError, no_controller}
use deepin_network_proxy.Cgroups.Manager.{Cgroups, find}
use deepin_network_proxy.Iptables.Rules.{CompleteRule}
use deepin_network_proxy.Iptables.Kernel.{Iptables}
use deepin_network_proxy.Iptables.Chain.{ChainError, nil_chain}
use deepin_network_proxy.Iptables.Table.{World}
use deepin_network_proxy.IpRoute.{Route, Rule}

-- What the methods use of the system. `spare_*` are the rooms that Go's `append` leaves.
pub record System : Type 1 where
  pub net : Iptables
  pub Shell : Type 0
  -- A line that the shell runs: whether it succeeds, and what is then there.
  pub sh : Bytes → Shell → Bool × Shell
  pub make_dir : Bytes → Bool
  pub remove_dir : Bytes → Bool
  pub echoes : Bytes → Bytes → Bool
  pub read_file : Bytes → Option Bytes
  -- Whether a port can be listened on, and a configuration written.
  pub listen_tcp : ℕ → Bool
  pub listen_udp : ℕ → Bool
  pub write_cfg : ProxyConfig → Bool
  pub spare_rules : ℕ → List CompleteRule
  pub spare_procs : ℕ → List Proc
  pub spare_paths : ℕ → List Bytes

-- `proxyPrv`. The listener is open or nil; `udp_readers` counts the goroutines of `readMsgUDP`.
pub record ProxyPrv : Type 0 where
  pub scope : Scope
  pub priority : Priority
  pub proxies : ScopeProxies
  pub proxy : Proxy
  pub enabled : Bool
  pub listening : Bool
  pub udp_readers : ℕ
  pub has_controller : Bool
  pub default_chain : Option ℕ
  pub self_chain : Option ℕ
  pub ip_rule : Option Rule
  pub uid : ℕ

pub data Fault : Type 0 where
  chain_fault : ChainError → Fault
  group_fault : CgroupError → Fault
  config_fault : ConfigError → Fault
  no_default_chain no_self_chain no_dns_chain route_failed bad_proto listen_failed : Fault
  bus_failed write_failed script_failed dns_failed not_started cgroup_gone : Fault

-- How a method ends.
pub data Ran (A : Type 0) : Type 0 where
  done : A → Ran A
  failed : Fault → Ran A
  panicked : Ran A

-- `_ = m`, or an error that is logged only: a panic stays one.
abbrev pub quiet : Ran (Unit {0}) → Ran (Unit {0})
quiet (failed _) = done tt
quiet (done _) = done tt
quiet panicked = panicked

abbrev pub of_chain : {A : Type 0} → Result ChainError A → Ran A
of_chain (ok a) = done a
of_chain (err nil_chain) = panicked
of_chain (err e) = failed (chain_fault e)

abbrev pub of_group : {A : Type 0} → Result CgroupError A → Ran A
of_group (ok a) = done a
of_group (err e) = failed (group_fault e)

module _ (S : System) where
  -- `Manager`, and the proxy that the method is called on.
  pub record Service : Type 0 where
    pub world : World S.net S.spare_rules
    pub shell : S.Shell
    pub cgroups : Cgroups
    pub config : ProxyConfig
    -- `iptablesMgr` is not nil.
    pub tables_made : Bool
    pub main_chain : Option ℕ
    pub main_route : Option Route
    -- `runOnce` has run.
    pub started : Bool
    pub mgr : ProxyPrv

  abbrev pub Act : Type 0 → Type 0
  Act A = Service → Option (Ran A × Service)

module _ {S : System} where
  abbrev pub continue :
      {A B : Type 0} → Ran A → Service S → (A → Act S B) → Option (Ran B × Service S)
  continue (done a) s f = f a s
  continue (failed e) s f = some (failed e, s)
  continue panicked s f = some (panicked, s)

  abbrev pub after :
      {A B : Type 0} → Option (Ran A × Service S) → (A → Act S B) → Option (Ran B × Service S)
  after none f = none
  after (some (r, s)) f = continue r s f

  infixl 5 ◌>>=◌ ◌>>◌
  abbrev pub ◌>>=◌ : {A B : Type 0} → Act S A → (A → Act S B) → Act S B
  ◌>>=◌ m f s = after (m s) f

  abbrev pub ◌>>◌ : {B : Type 0} → Act S (Unit {0}) → Act S B → Act S B
  m >> k = m >>= λ _. k

  abbrev pub pure : {A : Type 0} → A → Act S A
  pure a s = some (done a, s)

  abbrev pub fail : {A : Type 0} → Fault → Act S A
  fail e s = some (failed e, s)

  abbrev pub panic : {A : Type 0} → Act S A
  panic s = some (panicked, s)

  -- The state, and a new one for it.
  abbrev pub get : Act S (Service S)
  get s = some (done s, s)

  abbrev pub modify : (Service S → Service S) → Act S (Unit {0})
  modify f s = some (done tt, f s)

  abbrev pub modify_mgr : (ProxyPrv → ProxyPrv) → Act S (Unit {0})
  modify_mgr f = modify (λ s. record s { mgr = f s.mgr })

  abbrev pub passed_over : Option (Ran (Unit {0}) × Service S) → Option (Ran (Unit {0}) × Service S)
  passed_over none = none
  passed_over (some (r, s)) = some (quiet r, s)

  abbrev pub ignore : Act S (Unit {0}) → Act S (Unit {0})
  ignore m s = passed_over (m s)

  abbrev pub when : Bool → Act S (Unit {0}) → Act S (Unit {0})
  when b m = if b then m else pure tt

  -- A pointer that must not be nil.
  abbrev pub deref : {A : Type 0} → Option A → Act S A
  deref none = panic
  deref (some a) = pure a

  -- A pointer that the code compares with nil first.
  abbrev pub checked : {A : Type 0} → Option A → Fault → Act S A
  checked none e = fail e
  checked (some a) e = pure a

  -- The two cases of a pointer or a result that may be missing.
  abbrev pub on_option : {A B : Type 0} → Option A → Act S B → (A → Act S B) → Act S B
  on_option none m f = m
  on_option (some a) m f = f a

  -- An operation on the chains.
  abbrev pub on_world :
      {A : Type 0}
      → (World S.net S.spare_rules → Result ChainError A × World S.net S.spare_rules)
      → Act S A
  on_world op s = let (r, w) = op s.world in some (of_chain r, record s { world = w })

  -- An operation on the controllers.
  abbrev pub on_cgroups : {A : Type 0} → (Cgroups → Result CgroupError A × Cgroups) → Act S A
  on_cgroups op s = let (r, c) = op s.cgroups in some (of_group r, record s { cgroups = c })

  -- A line for the shell.
  abbrev pub run_line : Bytes → Act S Bool
  run_line line s = let (good, x) = S.sh line s.shell in some (done good, record s { shell = x })

  -- An operation of Iproute.
  abbrev pub on_shell : {A : Type 0} → (S.Shell → A × S.Shell) → Act S A
  on_shell op s = let (a, x) = op s.shell in some (done a, record s { shell = x })

  -- `mgr.controller`, where the method reads a field of it.
  abbrev pub the_controller : Act S Control
  the_controller = do
    s ← get
    if s.mgr.has_controller
        then checked (find s.mgr.scope s.cgroups.controllers) (group_fault no_controller)
        else panic
