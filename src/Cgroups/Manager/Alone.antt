-- ===== src/Cgroups/Manager/Alone.antt =====
-- `ReleaseToManager` in a manager with one controller.
use deepin_network_proxy.Define.{scope_Eq, scope_eq_iff}
use deepin_network_proxy.Com.Slices.{Slice, visible, mega_del, mega_exist}
use deepin_network_proxy.Cgroups.{Proc, proc_Eq, Control, Log, get_control_path}
use deepin_network_proxy.Cgroups.Controller.{
  Outcome, check_ctl_path_sl, check_ctl_proc_exist, del_ctl_app_path, move_out, move_in,
  add_missing, add_ctrl_proc, attach, attach_all,
}
use deepin_network_proxy.Cgroups.Manager.{
  Cgroups, get_controller_by_ctl_path, put, move_in_at, release_to_manager,
}
use deepin_network_proxy.Prelude.{
  ℕ, ◌≡◌, refl, sym, ap, ap₂, ◌∙◌, inl, inr, Bool, some, List, [], ◌∷◌, arith, nat_eq,
  if◌then◌else◌, Bool-cases, Option-cases, Bytes, nat_Eq, list_Eq, lookup, some_inj, ok, err,
  Result-cases,
}

-- A manager with one controller.
abbrev pub alone : Control → Log → Cgroups
alone c log = record { controllers = c ∷ []; log = log }

-- What `ReleaseToManager` leaves of it: the paths that `DelCtlAppPath` leaves.
pub record Alone (spare_paths : ℕ → List Bytes) (c : Control) (path : Bytes) (m : Cgroups)
    : Type 0 where
  pub control : Control
  pub only : m.controllers ≡ control ∷ []
  pub name : control.name ≡ c.name
  pub paths : control.ctl_path_sl ≡ (del_ctl_app_path spare_paths c path).ctl_path_sl

module _ (echoes : Bytes → Bytes → Bool) (spare : ℕ → List Proc) where
  -- Moving processes in changes neither the paths nor the name of a controller.
  pub record Same (c c' : Control) : Type 0 where
    pub paths : c'.ctl_path_sl ≡ c.ctl_path_sl
    pub name : c'.name ≡ c.name

  add_ctrl_proc-Same :
      (c : Control) (p : Proc) (log : Log) → Same c (add_ctrl_proc echoes spare c p log).1
  unfolding add_ctrl_proc
  add_ctrl_proc-Same c p log = elim (Bool-cases (check_ctl_proc_exist c p)) [
    | inl there ↦ rw (add_ctrl_proc, there) (record { paths = refl; name = refl })
    | inr absent ↦ elim (Result-cases (attach echoes p.pid (get_control_path c) log).0) [
      | inl (e, failed) ↦ rw (add_ctrl_proc, absent, failed) (record { paths = refl; name = refl })
      | inr (u, done) ↦ rw (add_ctrl_proc, absent, done) (record { paths = refl; name = refl })
    ]
  ]

  -- The rest of the loop, after one process.
  then_rest : List Proc → List Proc → Outcome × Control × Log → Outcome × Control × Log
  then_rest ogn ps t = elim t.0 [
    | err e ↦ (err e, t.1, t.2)
    | ok _ ↦ add_missing echoes spare ogn ps t.1 t.2
  ]

  then_rest-Same :
      (ogn ps : List Proc) (c : Control) (t : Outcome × Control × Log)
      → Same c t.1
      → Same t.1 (add_missing echoes spare ogn ps t.1 t.2).1
      → Same c (then_rest ogn ps t).1
  unfolding then_rest
  then_rest-Same ogn ps c (err e, c', log) one more = one
  then_rest-Same ogn ps c (ok u, c', log) one more = record {
    paths = more.paths ∙ one.paths;
    name = more.name ∙ one.name;
  }

  one_process : List Proc → Control → Proc → Log → Outcome × Control × Log
  one_process ogn c p log =
      if mega_exist ogn p then (ok tt, c, log) else add_ctrl_proc echoes spare c p log

  one_process-Same :
      (ogn : List Proc) (c : Control) (p : Proc) (log : Log) → Same c (one_process ogn c p log).1
  unfolding one_process
  one_process-Same ogn c p log = elim (Bool-cases (mega_exist ogn p)) [
    | inl known ↦ rw (one_process, known) (record { paths = refl; name = refl })
    | inr new ↦ rw (one_process, new) (add_ctrl_proc-Same c p log)
  ]

  add_missing-Same :
      (ogn ps : List Proc) (c : Control) (log : Log)
      → Same c (add_missing echoes spare ogn ps c log).1
  unfolding add_missing then_rest one_process
  add_missing-Same ogn [] c log = record { paths = refl; name = refl }
  add_missing-Same ogn (p ∷ ps) c log =
      let t = one_process ogn c p log in
      then_rest-Same ogn ps c t (one_process-Same ogn c p log) (add_missing-Same ogn ps t.1 t.2)

  move_in-Same :
      (c : Control) (path : Bytes) (ps : Slice Proc) (log : Log)
      → Same c (move_in echoes spare c path ps log).1
  unfolding move_in
  move_in-Same c path ps log = elim (Option-cases (lookup path c.ctl_proc_map)) [
    | inr (ogn, e) ↦ rw (move_in, e) (add_missing-Same (visible ogn) (visible ps) c log)
    | inl e ↦ elim (Result-cases (attach_all echoes (get_control_path c) (visible ps) log).0) [
      | inl (x, failed) ↦ rw (move_in, e, failed) (record { paths = refl; name = refl })
      | inr (u, done) ↦ rw (move_in, e, done) (record { paths = refl; name = refl })
    ]
  ]

  move_out-Same : (c : Control) (path : Bytes) → Same c (move_out c path).1
  unfolding move_out
  move_out-Same c path = elim (Option-cases (lookup path c.ctl_proc_map)) [
    | inl e ↦ rw (move_out, e) (record { paths = refl; name = refl })
    | inr (ps, e) ↦ rw (move_out, e) (record { paths = refl; name = refl })
  ]

  del_ctl_app_path_name :
      (spare_paths : ℕ → List Bytes) (c : Control) (path : Bytes)
      → (del_ctl_app_path spare_paths c path).name ≡ c.name
  unfolding del_ctl_app_path
  del_ctl_app_path_name spare_paths c path =
      elim (Bool-cases (mega_del spare_paths c.ctl_path_sl path).1) [
        | inl t ↦ rw (del_ctl_app_path, t) refl
        | inr f ↦ rw (del_ctl_app_path, f) refl
      ]

  put_alone : (c d : Control) → d.name ≡ c.name → put d (c ∷ []) ≡ d ∷ []
  unfolding put
  put_alone c d e = rw (put, (scope_eq_iff c.name d.name).1 (sym e)) refl

  found_alone :
      (c h : Control) (path : Bytes) → get_controller_by_ctl_path (c ∷ []) path ≡ some h → c ≡ h
  unfolding get_controller_by_ctl_path
  found_alone c h path e = elim (Bool-cases (check_ctl_path_sl c path)) [
    | inl here ↦ some_inj (rw here at e)
    | inr there ↦ absurd (ground arith)
  ]

  move_in_at_alone :
      (c h : Control) (m : Cgroups) (path : Bytes) (ps : Slice Proc)
      → m.controllers ≡ c ∷ []
      → c ≡ h
      → (d : Control) × ((move_in_at echoes spare m h path ps).1.controllers ≡ d ∷ []) × Same c d
  unfolding move_in_at
  move_in_at_alone c h m path ps only same =
      let d : Control = (move_in echoes spare c path ps m.log).1 in
      let s = move_in-Same c path ps m.log in
      (
        d,
        ap₂ (λ (x : Control) (cs : List Control). put (move_in echoes spare x path ps m.log).1 cs)
              (sym same) only
            ∙ put_alone c d s.name,
        s,
      )

  pub release_to_manager-Alone :
      (spare_paths : ℕ → List Bytes) (c : Control) (log : Log) (path : Bytes)
      → Alone spare_paths c path
          (release_to_manager echoes spare spare_paths (alone c log) c path).1
  unfolding release_to_manager
  release_to_manager-Alone spare_paths c log path =
      let d : Control = del_ctl_app_path spare_paths c path in
      let c' : Control = (move_out d path).1 in
      let s = move_out-Same d path in
      let named : c'.name ≡ c.name = s.name ∙ del_ctl_app_path_name spare_paths c path in
      let only : put c' (c ∷ []) ≡ c' ∷ [] = put_alone c c' named in
      elim (Option-cases (move_out d path).0) [
        | inl e ↦
            rw (release_to_manager, e)
              (record { control = c'; only = only; name = named; paths = s.paths })
        | inr (ps, e) ↦ elim (Bool-cases (nat_eq ps.len 0)) [
          | inl z ↦
              rw (release_to_manager, e, z)
                (record { control = c'; only = only; name = named; paths = s.paths })
          | inr n ↦ elim (Option-cases (get_controller_by_ctl_path (put c' (c ∷ [])) path)) [
            | inl lost ↦
                rw (release_to_manager, e, n, lost)
                  (record { control = c'; only = only; name = named; paths = s.paths })
            | inr (h, found) ↦
                let (t, left, more) =
                  move_in_at_alone c' h (record { controllers = put c' (c ∷ []); log = log }) path
                    ps only
                    (found_alone c' h path
                      (ap (λ cs. get_controller_by_ctl_path cs path) (sym only) ∙ found)) in
                rw (release_to_manager, e, n, found)
                  (record {
                    control = t;
                    only = left;
                    name = more.name ∙ named;
                    paths = more.paths ∙ s.paths;
                  })
          ]
        ]
      ]
