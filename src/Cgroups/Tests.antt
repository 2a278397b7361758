-- ===== src/Cgroups/Tests.antt =====
-- Two scopes that want the same program.
use deepin_network_proxy.Define.{
  Scope, main, app, scope_eq, scope_Eq, main_priority, app_priority, rank,
}
use deepin_network_proxy.Com.Pid.{is_pid, match_pid}
use deepin_network_proxy.Com.Slices.{Slice, visible, mega_exist, mega_del, find_index}
use deepin_network_proxy.Com.Slices.Delete.{remove_first}
use deepin_network_proxy.Cgroups.{Proc, Control, get_control_path}
use deepin_network_proxy.Cgroups.Controller.{check_ctl_path_sl, del_ctl_app_path}
use deepin_network_proxy.Cgroups.Manager.{
  Cgroups, get_controller_by_ctl_path, find, put, create_priority_controller, update_from_manager,
  release_to_manager,
}
use deepin_network_proxy.Cgroups.Manager.{release_all}
use deepin_network_proxy.Cgroups.Manager.ReleaseAll.{release_all_keeps_second}
use deepin_network_proxy.Cgroups.Manager.Order.{IsOrdered, create_priority_controller-IsOrdered}
use deepin_network_proxy.Cgroups.Manager.Moves.{moved, goes_back, update_from_manager_takes}
use deepin_network_proxy.Cgroups.Manager.Returns.{release_to_manager_returns}
use deepin_network_proxy.Prelude.{
  ℕ, ◌≡◌, refl, Bool, true, none, some, List, [], ◌∷◌, arith, if◌then◌else◌, Bytes, codes, nat_Eq,
  list_Eq, lookup, insert, delete, ok,
}

abbrev browser : Bytes
browser = codes "/usr/bin/browser"

abbrev tab : Bytes → Proc
tab pid = record {
  exec_path = browser;
  cgroup_path = codes "/user.slice";
  pid = pid;
  ppid = codes "1";
}

abbrev tabs : Slice Proc
tabs = record { array = tab (codes "41") ∷ tab (codes "42") ∷ []; len = 2 }

abbrev main_control : Control
main_control = record {
  name = main;
  priority = main_priority;
  ctl_path_sl = record { array = browser ∷ []; len = 1 };
  ctl_proc_map = (browser, tabs) ∷ [];
}

abbrev app_control : Control
app_control = record {
  name = app;
  priority = app_priority;
  ctl_path_sl = record { array = []; len = 0 };
  ctl_proc_map = [];
}

abbrev both : Cgroups
both = record { controllers = main_control ∷ app_control ∷ []; log = [] }

abbrev echoes : Bytes → Bytes → Bool
echoes pid path = true

abbrev no_spare {ℓ} : {A : Type ℓ} → ℕ → List A
no_spare n = []

both-IsOrdered : IsOrdered both.controllers
unfolding rank
both-IsOrdered = ((omega arith, (λ e. ground arith), tt), (tt, tt))

create_priority_controller-IsOrdered_example :
    IsOrdered (create_priority_controller (λ dir. true) both app app_priority).1.controllers
create_priority_controller-IsOrdered_example =
    create_priority_controller-IsOrdered (λ dir. true) both app app_priority both-IsOrdered

update_from_manager_takes_example :
    (m' : Cgroups) × (update_from_manager echoes no_spare both app_control browser ≡ (ok tt, m'))
    × (m'.log ≡ moved echoes (get_control_path app_control) (visible tabs))
    × ((s : Scope)
        → find s m'.controllers ≡ (
            if scope_eq app s
            then some (record app_control { ctl_proc_map = insert browser tabs [] })
            else if scope_eq main s
            then some
                (record main_control { ctl_proc_map = delete browser main_control.ctl_proc_map })
            else find s both.controllers))
unfolding find get_controller_by_ctl_path check_ctl_path_sl mega_exist rank lookup is_pid match_pid
    scope_eq
update_from_manager_takes_example =
    update_from_manager_takes echoes no_spare both app_control main_control browser tabs refl refl
      refl (omega arith) refl (omega arith) refl ((refl, refl, (refl, refl, tt)))

release_to_manager_returns_example :
    (m' : Cgroups) × (c' : Control) × (release_to_manager echoes no_spare no_spare both main_control
        browser
      ≡ (ok tt, m'))
    × (m'.log ≡ goes_back echoes (visible tabs))
    × (visible c'.ctl_path_sl ≡ [])
    × (lookup browser c'.ctl_proc_map ≡ none)
    × ((s : Scope)
        → find s m'.controllers ≡ (if scope_eq main s then some c' else find s both.controllers))
unfolding find get_controller_by_ctl_path check_ctl_path_sl mega_exist lookup delete scope_eq put
    del_ctl_app_path mega_del find_index remove_first
release_to_manager_returns_example =
    release_to_manager_returns echoes no_spare no_spare both main_control browser tabs refl
      (omega arith) refl refl

-- Three programs.
abbrev busy : Control
busy = record app_control {
  ctl_path_sl = record { array = codes "a" ∷ codes "b" ∷ codes "c" ∷ [] ∷ []; len = 3 };
}

release_all_keeps_second_example :
    (c' : Control) × ((release_all echoes no_spare no_spare
        (λ dir. true)
        (record { controllers = busy ∷ []; log = [] })
        busy).1.controllers
      ≡ c' ∷ [])
    × (check_ctl_path_sl c' (codes "b") ≡ true)
unfolding mega_exist
release_all_keeps_second_example =
    release_all_keeps_second echoes no_spare no_spare (λ dir. true) busy [] (codes "a") (codes "b")
      (codes "c") ([] ∷ []) 0 (omega arith) refl (λ e. ground arith) refl
