-- ===== src/Cgroups/Controller.antt =====
-- new_cgroups/controls_cgroups.go: the operations of one controller, and `Attach` of utils.go.
use deepin_network_proxy.Com.Pid.{is_pid}
use deepin_network_proxy.Com.Slices.{Slice, visible, append_slice, mega_add, mega_del, mega_exist}
use deepin_network_proxy.Cgroups.{
  Proc, proc_Eq, Control, Log, CgroupError, not_a_pid, echo_failed, get_control_path,
}
use deepin_network_proxy.Prelude.{
  ℕ, Bool, not, Option, none, some, List, [], ◌∷◌, ◌++◌, if◌then◌else◌, Bytes, nat_Eq, list_Eq,
  ◌==◌, GoMap, lookup, insert, delete, Result, ok, err,
}

abbrev pub Outcome : Type 0
Outcome = Result CgroupError (Unit {0})

-- `Controller.AddCtlAppPath`.
unfoldable pub add_ctl_app_path : (ℕ → List Bytes) → Control → Bytes → Control
add_ctl_app_path spare c path =
    let (paths, update) = mega_add spare c.ctl_path_sl path in
    if update then record c { ctl_path_sl = paths } else c

-- `Controller.ClearCtlAppPath`.
unfoldable pub clear_ctl_app_path : Control → Control
clear_ctl_app_path c = record c { ctl_path_sl = record { array = []; len = 0 } }

-- `Controller.DelCtlAppPath`.
unfoldable pub del_ctl_app_path : (ℕ → List Bytes) → Control → Bytes → Control
del_ctl_app_path spare c path =
    let (paths, update, _) = mega_del spare c.ctl_path_sl path in
    if update then record c { ctl_path_sl = paths } else c

-- `Controller.CheckCtlPathSl`.
unfoldable pub check_ctl_path_sl : Control → Bytes → Bool
check_ctl_path_sl c path = mega_exist (visible c.ctl_path_sl) path

-- `ControlProcSl.CheckCtrlPidExist`.
unfoldable pub check_ctrl_pid_exist : List Proc → Bytes → Option Proc
check_ctrl_pid_exist [] ppid = none
check_ctrl_pid_exist (p ∷ ps) ppid = if p.pid == ppid then some p else check_ctrl_pid_exist ps ppid

-- `Controller.CheckCtrlPid`. Go ranges over the map in an order of its own.
unfoldable pub check_ctrl_pid : GoMap Bytes (Slice Proc) → Bytes → Option Proc
check_ctrl_pid [] ppid = none
check_ctrl_pid ((path, ps) ∷ m) ppid = elim (check_ctrl_pid_exist (visible ps) ppid) [
  | some p ↦ some p
  | none ↦ check_ctrl_pid m ppid
]

-- The processes at a path; a missing key reads as nil.
abbrev pub procs_at : Control → Bytes → List Proc
procs_at c path = elim (lookup path c.ctl_proc_map) [ none ↦ [] | some ps ↦ visible ps ]

abbrev pub nil_slice : Slice Proc
nil_slice = record { array = []; len = 0 }

abbrev pub slice_at : Control → Bytes → Slice Proc
slice_at c path = elim (lookup path c.ctl_proc_map) [ none ↦ nil_slice | some ps ↦ ps ]

-- `Controller.CheckCtlProcExist`.
unfoldable pub check_ctl_proc_exist : Control → Proc → Bool
check_ctl_proc_exist c p = mega_exist (procs_at c p.exec_path) p

-- `Controller.MoveOut`.
unfoldable pub move_out : Control → Bytes → Option (Slice Proc) × Control
move_out c path = elim (lookup path c.ctl_proc_map) [
  | none ↦ (none, c)
  | some ps ↦ (some ps, record c { ctl_proc_map = delete path c.ctl_proc_map })
]

-- `Controller.DelCtlProc`: `update` is true where the process was found, and then nothing is saved,
-- but `MegaDel` has already written to the array that the map's slice shows.
unfoldable pub del_ctl_proc : (ℕ → List Proc) → Control → Proc → Control
del_ctl_proc spare c p =
    if not (check_ctl_proc_exist c p)
    then c
    else let ps = slice_at c p.exec_path in
      let (left, update, array) = mega_del spare ps p in
      record c {
        ctl_proc_map =
            insert p.exec_path (if update then record ps { array = array } else left)
              c.ctl_proc_map;
      }

module _ (echoes : Bytes → Bytes → Bool) where
  -- `Attach` of new_cgroups/utils.go.
  unfoldable pub attach : Bytes → Bytes → Log → Outcome × Log
  attach pid path log =
      if not (is_pid pid)
      then (err not_a_pid, log)
      else if echoes pid path
      then (ok tt, log ++ (pid, path) ∷ [])
      else (err echo_failed, log)

  -- `ControlProcSl.Attach`: it stops at the first error.
  unfoldable pub attach_all : Bytes → List Proc → Log → Outcome × Log
  attach_all path [] log = (ok tt, log)
  attach_all path (p ∷ ps) log =
      let (r, log') = attach p.pid path log in
      let rest = attach_all path ps log' in elim r [ err e ↦ (err e, log') | ok _ ↦ rest ]

  -- `ControlProcSl.Release`: it goes on after an error.
  unfoldable pub release : List Proc → Log → Log
  release [] log = log
  release (p ∷ ps) log = release ps (attach p.pid p.cgroup_path log).1

  module _ (spare : ℕ → List Proc) where
    -- `Controller.AddCtrlProc`.
    unfoldable pub add_ctrl_proc : Control → Proc → Log → Outcome × Control × Log
    add_ctrl_proc c p log =
        if check_ctl_proc_exist c p
        then (ok tt, c, log)
        else let (r, log') = attach p.pid (get_control_path c) log in
          elim r [
            | err e ↦ (err e, c, log')
            | ok _ ↦ (
              ok tt,
              record c {
                ctl_proc_map =
                    insert p.exec_path (append_slice spare (slice_at c p.exec_path) (p ∷ [])).0
                      c.ctl_proc_map;
              },
              log',
            )
          ]

    -- The second loop of `Controller.MoveIn`: `ogn` is the slice that was there at first.
    unfoldable pub add_missing : List Proc → List Proc → Control → Log → Outcome × Control × Log
    add_missing ogn [] c log = (ok tt, c, log)
    add_missing ogn (p ∷ ps) c log =
        let (r, c', log') = if mega_exist ogn p then (ok tt, c, log) else add_ctrl_proc c p log in
        let rest = add_missing ogn ps c' log' in elim r [ err e ↦ (err e, c', log') | ok _ ↦ rest ]

    -- `Controller.MoveIn`.
    unfoldable pub move_in : Control → Bytes → Slice Proc → Log → Outcome × Control × Log
    move_in c path incoming log = elim (lookup path c.ctl_proc_map) [
      | none ↦
          let (r, log') = attach_all (get_control_path c) (visible incoming) log in
          elim r [
            | err e ↦ (err e, c, log')
            | ok _ ↦ (ok tt, record c { ctl_proc_map = insert path incoming c.ctl_proc_map }, log')
          ]
      | some ogn ↦ add_missing (visible ogn) (visible incoming) c log
    ]
