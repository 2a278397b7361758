-- ===== src/Dbus/Service/Calls.antt =====
-- dbus/proxyPriv_proxy.go and dbus/proxyPriv.go: the D-Bus methods of a scope's proxy. The goroutines
-- that they start (accept, readMsgUDP and the DNS server) run beside them and are not part of a call.
use deepin_network_proxy.Prelude.{
  Option, none, List, ◌∷◌, ℕ, ◌+◌, Bool, true, false, not, ◌&&◌, some, [], if◌then◌else◌, Bytes,
  codes, nat_Eq, list_Eq, ◌==◌, Result, ok, err,
}
use deepin_network_proxy.Config.{
  ConfigError, Proxy, ScopeProxies, get_proxy, set_proxy, clear_proxy, set_scope_proxies,
}
use deepin_network_proxy.Cgroups.{get_cgroup_path, get_control_path}
use deepin_network_proxy.Cgroups.Controller.{attach}
use deepin_network_proxy.Tproxy.Handlers.{ProtoTyp, socks5_tcp, build_proto}
use deepin_network_proxy.Dbus.Service.{
  Service, Service, Ran, panicked, ProxyPrv, System, Act, config_fault, bad_proto, listen_failed,
  bus_failed, write_failed, dns_failed, not_started, cgroup_gone, ◌>>=◌, ◌>>◌, pure, fail, get,
  modify, modify_mgr, ignore, when, checked, on_cgroups, the_controller,
}
use deepin_network_proxy.Dbus.Service.Redirect.{start_redirect, stop_redirect}

-- Who called, as D-Bus and the user database say: nothing, no uid, no such user, or uid and group.
pub data Caller : Type 0 where
  no_bus no_uid : Caller
  no_user : ℕ → Caller
  caller : ℕ → ℕ → Caller

-- `StartProxy`'s test of the protocol.
unfoldable pub proto_typ : Bytes → Option ProtoTyp
proto_typ proto =
    if proto == codes "socks5"
    then some socks5_tcp
    else (let (typ, bad) = build_proto proto in if bad then none else some typ)

module _ (S : System) where
  -- The beginning of `StartProxy`, which keeps the caller's uid.
  unfoldable pub know_caller : Caller → Act S (Unit {0})
  know_caller no_bus = fail bus_failed
  know_caller no_uid = do modify_mgr (λ m. record m { uid = 0 }); fail bus_failed
  know_caller (no_user uid) = do modify_mgr (λ m. record m { uid = uid }); fail bus_failed
  know_caller (caller uid gid) = modify_mgr (λ m. record m { uid = uid })

  abbrev pub of_config : {A : Type 0} → Result ConfigError A → Act S A
  of_config (ok a) = pure a
  of_config (err e) = fail (config_fault e)

  -- `listen`, up to the options of the socket.
  unfoldable pub listen : Act S (Unit {0})
  listen = do
    s ← get
    if S.listen_tcp s.mgr.proxies.t_port
        then modify_mgr (λ m. record m { listening = true })
        else fail listen_failed

  -- `listenPacket`, and the goroutine that reads from it. The connection is not kept.
  unfoldable pub listen_packet : Act S (Unit {0})
  listen_packet = do
    s ← get
    if S.listen_udp s.mgr.proxies.t_port
        then modify_mgr (λ m. record m { udp_readers = m.udp_readers + 1 })
        else fail listen_failed

  -- `StopProxy`; `dns` says whether the DNS server can be shut down.
  unfoldable pub stop_proxy : Bool → Act S (Unit {0})
  stop_proxy dns = do
    s ← get
    if not s.mgr.enabled then pure tt else (do
      modify_mgr (λ m. record m { enabled = false; listening = false })
      stop_redirect S
      if dns then pure tt else fail dns_failed)

  -- `StartProxy`.
  unfoldable pub start_proxy : Caller → Bool → Bytes → Bytes → Bool → Act S (Unit {0})
  start_proxy who dns proto name udp = do
    know_caller who
    s ← get
    when s.mgr.enabled (ignore (stop_proxy dns))
    typ ← checked (proto_typ proto) bad_proto
    s ← get
    p ← of_config (get_proxy (some s.mgr.proxies) proto name)
    modify_mgr (λ m. record m { proxy = p })
    listen
    when (udp && proto == codes "sock5") listen_packet
    modify_mgr (λ m. record m { enabled = true })
    start_redirect S

  -- `writeConfig`.
  unfoldable pub write_config : Act S (Unit {0})
  write_config = do
    modify (λ s. record s { config = set_scope_proxies s.config s.mgr.scope s.mgr.proxies })
    s ← get
    if S.write_cfg s.config then pure tt else fail write_failed

  -- `AddProxy`, once the JSON has been read.
  unfoldable pub add_proxy : Bytes → Bytes → Proxy → Act S (Unit {0})
  add_proxy proto name p = modify_mgr (λ m. record m { proxies = set_proxy m.proxies proto name p })

  -- `SetProxies`.
  unfoldable pub set_proxies : ScopeProxies → Act S (Unit {0})
  set_proxies proxies = do modify_mgr (λ m. record m { proxies = proxies }); write_config

  -- `proxyPrv.ClearProxy`.
  unfoldable pub clear_proxies : Act S (Unit {0})
  clear_proxies = do modify_mgr (λ m. record m { proxies = clear_proxy m.proxies }); write_config

  -- `AddProc`: `pid` is the text of the number.
  unfoldable pub add_proc : Bytes → Act S (Unit {0})
  add_proc pid = do
    s ← get
    if not s.mgr.has_controller then fail not_started else (do
      c ← the_controller
      on_cgroups (λ g.
          let (r, log) = attach S.echoes pid (get_control_path c) g.log in
          (r, record g { log = log })))

  -- `GetCGroups`: the empty text without a controller; `there` stands for `os.Stat`.
  unfoldable pub get_cgroups : (Bytes → Bool) → Act S Bytes
  get_cgroups there = do
    s ← get
    if not s.mgr.has_controller then pure [] else (do
      c ← the_controller
      if there (get_cgroup_path c) then pure (get_cgroup_path c) else fail cgroup_gone)

-- A call of a method, or of another proxy's methods from here on.
pub data Call : Type 0 where
  starts : Caller → Bool → Bytes → Bytes → Bool → Call
  stops : Bool → Call
  adds : Bytes → Bytes → Proxy → Call
  sets : ScopeProxies → Call
  clears : Call
  turns : ProxyPrv → Call

module _ (S : System) where
  unfoldable pub call : Call → Act S (Unit {0})
  call (starts who dns proto name udp) = start_proxy S who dns proto name udp
  call (stops dns) = stop_proxy S dns
  call (adds proto name p) = add_proxy S proto name p
  call (sets proxies) = set_proxies S proxies
  call clears = clear_proxies S
  call (turns m) = modify_mgr (λ _. m)

  abbrev pub next :
      Option (Ran (Unit {0}) × Service S) → (Service S → Option (Service S)) → Option (Service S)
  next none f = none
  next (some (panicked, s)) f = some s
  next (some (_, s)) f = f s

  -- A sequence of calls, up to a panic, which ends the program.
  unfoldable pub serve : List Call → Service S → Option (Service S)
  serve [] s = some s
  serve (c ∷ cs) s = next (call c s) (serve cs)
