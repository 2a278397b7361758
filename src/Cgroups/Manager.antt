-- ===== src/Cgroups/Manager.antt =====
-- new_cgroups/manager.go, and the operations of controls_cgroups.go that move processes between two
-- controllers. A pointer to a controller is its name here: `CreatePriorityController` lets no name
-- in twice. `put` writes a controller back, and `make_dir` stands for `com.GuaranteeDir`.
pub mod Order
pub mod Moves
pub mod Returns
pub mod Leads
pub mod Alone
pub mod ReleaseAll
use deepin_network_proxy.Define.{Scope, scope_Eq, scope_eq, Priority, rank}
use deepin_network_proxy.Com.Slices.{Slice, visible}
use deepin_network_proxy.Cgroups.{
  Proc, Control, Log, CgroupError, controller_exists, dir_failed, no_controller, get_control_path,
  get_cgroup_path,
}
use deepin_network_proxy.Cgroups.Controller.{
  Outcome, del_ctl_app_path, check_ctl_path_sl, check_ctrl_pid, move_out, move_in, release,
}
use deepin_network_proxy.Prelude.{
  ℕ, zero, suc, ◌-◌, Bool, true, false, not, ◌||◌, Option, none, some, List, [], ◌∷◌, map, arith,
  ltb, leb, nat_eq, if◌then◌else◌, length, get_elem?, Bytes, nat_Eq, list_Eq, Result, ok, err,
}

pub record Cgroups : Type 0 where
  pub controllers : List Control
  pub log : Log

abbrev pub new_manager : Cgroups
new_manager = record { controllers = []; log = [] }

-- `CheckControllerExist`.
unfoldable pub check_controller_exist : List Control → Scope → Priority → Bool
check_controller_exist [] name priority = false
check_controller_exist (c ∷ cs) name priority =
    scope_eq c.name name
    || (nat_eq (rank c.priority) (rank priority) || check_controller_exist cs name priority)

-- `sort.SliceStable` by priority, on a list that is sorted up to its new last element.
unfoldable pub sort_in : Control → List Control → List Control
sort_in c [] = c ∷ []
sort_in c (d ∷ ds) =
    if ltb (rank c.priority) (rank d.priority) then c ∷ d ∷ ds else d ∷ sort_in c ds

abbrev pub new_control : Scope → Priority → Control
new_control name priority = record {
  name = name;
  priority = priority;
  ctl_path_sl = record { array = []; len = 0 };
  ctl_proc_map = [];
}

-- `CreatePriorityController`.
unfoldable pub create_priority_controller :
    (Bytes → Bool) → Cgroups → Scope → Priority → Result CgroupError Control × Cgroups
create_priority_controller make_dir m name priority =
    let c = new_control name priority in
    if check_controller_exist m.controllers name priority
    then (err controller_exists, m)
    else if not (make_dir (get_control_path c))
    then (err dir_failed, m)
    else (ok c, record m { controllers = sort_in c m.controllers })

-- `GetControllerByCtlPath`.
unfoldable pub get_controller_by_ctl_path : List Control → Bytes → Option Control
get_controller_by_ctl_path [] path = none
get_controller_by_ctl_path (c ∷ cs) path =
    if check_ctl_path_sl c path then some c else get_controller_by_ctl_path cs path

abbrev pub is_found {ℓ} : {A : Type ℓ} → Option A → Bool
is_found none = false
is_found (some _) = true

-- `GetControllerByCtrlByPPid`.
unfoldable pub get_controller_by_ppid : List Control → Bytes → Option Control
get_controller_by_ppid [] ppid = none
get_controller_by_ppid (c ∷ cs) ppid =
    if is_found (check_ctrl_pid c.ctl_proc_map ppid) then some c else get_controller_by_ppid cs ppid

-- The controller that a pointer leads to.
unfoldable pub find : Scope → List Control → Option Control
find name [] = none
find name (c ∷ cs) = if scope_eq c.name name then some c else find name cs

unfoldable pub put : Control → List Control → List Control
put c [] = []
put c (d ∷ ds) = if scope_eq d.name c.name then c ∷ ds else d ∷ put c ds

module _ (echoes : Bytes → Bytes → Bool) (spare : ℕ → List Proc) where
  -- `to.MoveIn(path, procs)` for a controller of the list.
  unfoldable pub move_in_at : Cgroups → Control → Bytes → Slice Proc → Outcome × Cgroups
  move_in_at m to path ps =
      let (r, c, log) = move_in echoes spare to path ps m.log in
      (r, record { controllers = put c m.controllers; log = log })

  -- `Controller.UpdateFromManager`, called on the controller `c`.
  unfoldable pub update_from_manager : Cgroups → Control → Bytes → Outcome × Cgroups
  update_from_manager m c path = elim (get_controller_by_ctl_path m.controllers path) [
    | none ↦ (ok tt, m)
    | some holder ↦
        if leb (rank c.priority) (rank holder.priority)
        then (ok tt, m)
        else let (procs, holder') = move_out holder path in
          let m' = record m { controllers = put holder' m.controllers } in
          elim procs [
            | none ↦ (ok tt, m')
            | some ps ↦ if nat_eq ps.len 0 then (ok tt, m') else move_in_at m' c path ps
          ]
  ]

  -- `Controller.ReleaseToManager`, called on the controller `c`.
  unfoldable pub release_to_manager :
      (ℕ → List Bytes) → Cgroups → Control → Bytes → Outcome × Cgroups
  release_to_manager spare_paths m c path =
      let (procs, c') = move_out (del_ctl_app_path spare_paths c path) path in
      let m' = record m { controllers = put c' m.controllers } in
      elim procs [
        | none ↦ (ok tt, m')
        | some ps ↦
            if nat_eq ps.len 0
            then (ok tt, m')
            else elim (get_controller_by_ctl_path m'.controllers path) [
              | none ↦ (ok tt, record m' { log = release echoes (visible ps) m'.log })
              | some holder ↦ move_in_at m' holder path ps
            ]
      ]

  -- The loop of `Controller.ReleaseAll`. `range` fixes the length at the start, and reads each path
  -- from the array that `DelCtlAppPath` shifts meanwhile.
  unfoldable pub release_loop : (ℕ → List Bytes) → ℕ → ℕ → Cgroups → Scope → Outcome × Cgroups
  release_loop spare_paths zero i m name = (ok tt, m)
  release_loop spare_paths (suc n) i m name = elim (find name m.controllers) [
    | none ↦ (err no_controller, m)
    | some c ↦ elim (get_elem? c.ctl_path_sl.array i) [
      | none ↦ (err no_controller, m)
      | some path ↦
          let (r, m') = release_to_manager spare_paths m c path in
          let rest = release_loop spare_paths n (suc i) m' name in
          elim r [ err e ↦ (err e, m') | ok _ ↦ rest ]
    ]
  ]

  -- `Controller.ReleaseAll`, called on the controller `c`; `remove_all` stands for `os.RemoveAll`.
  unfoldable pub release_all :
      (ℕ → List Bytes) → (Bytes → Bool) → Cgroups → Control → Outcome × Cgroups
  release_all spare_paths remove_all m c =
      let (r, m') = release_loop spare_paths c.ctl_path_sl.len 0 m c.name in
      elim r [
        | err e ↦ (err e, m')
        | ok _ ↦ if remove_all (get_cgroup_path c) then (ok tt, m') else (err dir_failed, m')
      ]

  -- The loop of `Controller.MoveToController` over the target's paths.
  unfoldable pub move_paths : List Bytes → Cgroups → Scope → Scope → Outcome × Cgroups
  move_paths [] m from to = (ok tt, m)
  move_paths (path ∷ paths) m from to =
      let (r, m') : Outcome × Cgroups = (elim (find from m.controllers) [
        | none ↦ (err no_controller, m)
        | some c ↦
            let (procs, c') = move_out c path in
            let m1 : Cgroups = record m { controllers = put c' m.controllers } in
            elim procs [
              | none ↦ (ok tt, m1)
              | some ps ↦ elim (find to m1.controllers) [
                | none ↦ (err no_controller, m1)
                | some t ↦ move_in_at m1 t path ps
              ]
            ]
      ]) in
      let rest = move_paths paths m' from to in elim r [ err e ↦ (err e, m') | ok _ ↦ rest ]

  -- `Controller.MoveToController`.
  unfoldable pub move_to_controller : Cgroups → Control → Control → Outcome × Cgroups
  move_to_controller m c target =
      if leb (rank target.priority) (rank c.priority)
      then (ok tt, m)
      else move_paths (visible target.ctl_path_sl) m c.name target.name

  -- The loop of `Controller.UpdateFromManagerAll` over the controllers; `lower` is set behind `c`.
  unfoldable pub update_loop : List Scope → Bool → Cgroups → Scope → Outcome × Cgroups
  update_loop [] lower m name = (ok tt, m)
  update_loop (s ∷ ss) lower m name =
      let (r, m') : Outcome × Cgroups =
        (if not lower then (ok tt, m) else elim (find name m.controllers) [
          | none ↦ (err no_controller, m)
          | some c ↦ elim (find s m.controllers) [
            | none ↦ (err no_controller, m)
            | some target ↦ move_to_controller m c target
          ]
        ]) in
      let rest = update_loop ss (lower || scope_eq s name) m' name in
      elim r [ err e ↦ (err e, m') | ok _ ↦ rest ]

  -- `Controller.UpdateFromManagerAll`.
  unfoldable pub update_from_manager_all : Cgroups → Scope → Outcome × Cgroups
  update_from_manager_all m name =
      update_loop (map (λ (c : Control). c.name) m.controllers) false m name
