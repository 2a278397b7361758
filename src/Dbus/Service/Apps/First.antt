-- ===== src/Dbus/Service/Apps/First.antt =====
-- Of a list of programs the methods mostly take the first alone.
use deepin_network_proxy.Prelude.{
  ◌≡◌, refl, inl, inr, true, false, Option, some, List, [], ◌∷◌, Bool-cases, Bytes, nat_Eq, list_Eq,
}
use deepin_network_proxy.Com.Slices.{mega_exist}
use deepin_network_proxy.Dbus.Service.{System, Service, done, panicked, ignore}
use deepin_network_proxy.Config.{set_scope_proxies}
use deepin_network_proxy.Dbus.Service.Calls.{write_config}
use deepin_network_proxy.Dbus.Service.Apps.{add_proxy_apps, del_proxy_apps, release_path, without}

module _ {S : System} where
  -- `_ = writeConfig()`.
  ignored_write :
      (s : Service S)
      → ignore (write_config S) s
        ≡ some (done tt, record s { config = set_scope_proxies s.config s.mgr.scope s.mgr.proxies })
  unfolding write_config
  ignored_write s =
      elim (Bool-cases (S.write_cfg (set_scope_proxies s.config s.mgr.scope s.mgr.proxies))) [
        | inl good ↦ rw good refl
        | inr bad ↦ rw bad refl
      ]

  -- What is left when the path has been taken out and the configuration written.
  abbrev pub dropped : Service S → Bytes → Service S
  dropped s path =
      let m = record s.mgr {
        proxies = record s.mgr.proxies {
          proxy_program = without S s.mgr.proxies.proxy_program path;
        };
      } in
      record s { mgr = m; config = set_scope_proxies s.config s.mgr.scope m.proxies }

module _ (S : System) (parse : Bytes → Option Bytes) where
  -- `DelProxyApps` deals with the first program that has a path, and with no other.
  pub del_proxy_apps_first :
      (app : Bytes) (apps : List Bytes) {path : Bytes} (s : Service S)
      → parse app ≡ some path
      → del_proxy_apps S parse (app ∷ apps) s ≡ del_proxy_apps S parse (app ∷ []) s
  unfolding del_proxy_apps
  del_proxy_apps_first app apps s e = rw e refl

  -- `AddProxyApps` of a stopped proxy deals with the first program that has a path, and with no other.
  pub add_proxy_apps_first :
      (app : Bytes) (apps : List Bytes) {path : Bytes} (s : Service S)
      → parse app ≡ some path
      → s.mgr.enabled ≡ false
      → add_proxy_apps S parse (app ∷ apps) s ≡ add_proxy_apps S parse (app ∷ []) s
  unfolding add_proxy_apps
  add_proxy_apps_first app apps s e off = rw e (rw off refl)

  -- `DelProxyApps` of a listed program panics where the proxy has never been started: it has then taken
  -- the program out of the list and written the configuration.
  pub del_proxy_apps_panics :
      (app : Bytes) (apps : List Bytes) {path : Bytes} (s : Service S)
      → parse app ≡ some path
      → mega_exist s.mgr.proxies.proxy_program path ≡ true
      → s.mgr.has_controller ≡ false
      → del_proxy_apps S parse (app ∷ apps) s ≡ some (panicked, dropped s path)
  unfolding del_proxy_apps release_path
  del_proxy_apps_panics app apps {path} s e known off =
      let m = record s.mgr {
        proxies = record s.mgr.proxies {
          proxy_program = without S s.mgr.proxies.proxy_program path;
        };
      } in
      rw e (rw known (rw (ignored_write (record s { mgr = m })) (rw off refl)))
