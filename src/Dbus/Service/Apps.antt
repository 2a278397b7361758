-- ===== src/Dbus/Service/Apps.antt =====
-- dbus/AppProxy.go and dbus/GlobalProxy.go: the programs that a scope takes in or leaves out. Each method
-- runs in a goroutine of its own, here as one step. `GetAllProcs` gives no processes, so that no
-- program's processes are moved in, and `parse` stands for `parseDesktopPath`.
pub mod First
use deepin_network_proxy.Prelude.{
  ◌+◌, ap, not, Option, List, [], ◌∷◌, ◌++◌, if◌then◌else◌, length, take, Bytes, Eq, nat_Eq,
  list_Eq,
}
use deepin_network_proxy.Com.Slices.{visible, mega_exist, mega_del}
use deepin_network_proxy.Cgroups.Controller.{add_ctl_app_path}
use deepin_network_proxy.Cgroups.Manager.{
  get_controller_by_ctl_path, update_from_manager, release_to_manager, put,
}
use deepin_network_proxy.Dbus.Service.{
  System, Act, ◌>>=◌, ◌>>◌, pure, get, modify, modify_mgr, ignore, on_option, on_cgroups,
  the_controller,
}
use deepin_network_proxy.Dbus.Service.Calls.{write_config}

module _ (S : System) where
  -- `mgr.controller.AddCtlAppPath(path)`.
  unfoldable pub add_path : Bytes → Act S (Unit {0})
  add_path path = do
    c ← the_controller
    modify (λ s. record s {
      cgroups = record s.cgroups {
        controllers = put (add_ctl_app_path S.spare_paths c path) s.cgroups.controllers;
      };
    })

  -- `mgr.controller.UpdateFromManager(path)`.
  unfoldable pub update_path : Bytes → Act S (Unit {0})
  update_path path = do
    c ← the_controller
    on_cgroups (λ g. update_from_manager S.echoes S.spare_procs g c path)

  -- `mgr.controller.ReleaseToManager(path)`.
  unfoldable pub release_path : Bytes → Act S (Unit {0})
  release_path path = do
    c ← the_controller
    on_cgroups (λ g. release_to_manager S.echoes S.spare_procs S.spare_paths g c path)

  -- The end of a round of `addProxyApps` and `ignoreProxyApps`: only a path that no controller has
  -- leads to the next round, `rest`.
  unfoldable pub take_path : Bytes → Act S (Unit {0}) → Act S (Unit {0})
  take_path path rest = do
    s ← get
    on_option (get_controller_by_ctl_path s.cgroups.controllers path) (do add_path path; rest)
        (λ holder. do ignore (update_path path); add_path path)

  -- `AppProxy.addProxyApps`.
  unfoldable pub add_proxy_apps : (Bytes → Option Bytes) → List Bytes → Act S (Unit {0})
  add_proxy_apps parse [] = pure tt
  add_proxy_apps parse (app ∷ apps) =
      let rest = add_proxy_apps parse apps in
      on_option (parse app) rest (λ path. do
        s ← get
        if mega_exist s.mgr.proxies.proxy_program path then pure tt else (do
          modify_mgr (λ m. record m {
            proxies = record m.proxies { proxy_program = m.proxies.proxy_program ++ path ∷ [] };
          })
          if not s.mgr.enabled then pure tt else (do ignore (write_config S); take_path path rest)))

  -- A list without its first element that is the path, by `MegaDel`.
  abbrev pub without : List Bytes → Bytes → List Bytes
  without xs path = visible (mega_del S.spare_paths (record { array = xs; len = length xs }) path).0

  -- `AppProxy.delProxyApps`.
  unfoldable pub del_proxy_apps : (Bytes → Option Bytes) → List Bytes → Act S (Unit {0})
  del_proxy_apps parse [] = pure tt
  del_proxy_apps parse (app ∷ apps) =
      let rest = del_proxy_apps parse apps in
      on_option (parse app) rest (λ path. do
        s ← get
        if not (mega_exist s.mgr.proxies.proxy_program path) then pure tt else (do
          modify_mgr (λ m. record m {
            proxies = record m.proxies { proxy_program = without m.proxies.proxy_program path };
          })
          ignore (write_config S)
          release_path path))

  -- `GlobalProxy.ignoreProxyApps`.
  unfoldable pub ignore_proxy_apps : List Bytes → Act S (Unit {0})
  ignore_proxy_apps [] = pure tt
  ignore_proxy_apps (app ∷ apps) =
      let rest = ignore_proxy_apps apps in
      do
        s ← get
        if mega_exist s.mgr.proxies.no_proxy_program app then pure tt else (do
          modify_mgr (λ m. record m {
            proxies = record m.proxies {
              no_proxy_program = m.proxies.no_proxy_program ++ app ∷ [];
            };
          })
          ignore (write_config S)
          if not s.mgr.enabled then pure tt else take_path app rest)

  -- `GlobalProxy.unIgnoreProxyApps`.
  unfoldable pub un_ignore_proxy_apps : List Bytes → Act S (Unit {0})
  un_ignore_proxy_apps [] = pure tt
  un_ignore_proxy_apps (app ∷ apps) = do
    s ← get
    if not (mega_exist s.mgr.proxies.no_proxy_program app) then pure tt else (do
      modify_mgr (λ m. record m {
        proxies = record m.proxies { no_proxy_program = without m.proxies.no_proxy_program app };
      })
      ignore (write_config S)
      if not s.mgr.enabled then pure tt else release_path app)
