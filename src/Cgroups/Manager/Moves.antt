-- ===== src/Cgroups/Manager/Moves.antt =====
-- Moving the processes of a path between controllers.
use deepin_network_proxy.Define.{Scope, scope_Eq, scope_eq, scope_eq_iff, rank}
use deepin_network_proxy.Com.Pid.{is_pid}
use deepin_network_proxy.Com.Slices.{Slice, visible, mega_del}
use deepin_network_proxy.Com.Slices.Windows.{IsSlice}
use deepin_network_proxy.Com.Slices.Delete.{remove_first, remove_first_absent, mega_del_lem}
use deepin_network_proxy.Cgroups.{Proc, Control, Log, get_control_path}
use deepin_network_proxy.Cgroups.Controller.{
  del_ctl_app_path, move_out, move_in, attach, attach_all, release,
}
use deepin_network_proxy.Cgroups.Manager.{
  Cgroups, get_controller_by_ctl_path, find, put, move_in_at, update_from_manager,
}
use deepin_network_proxy.Prelude.{
  inl, inr, leb-false, ℕ, ◌≤◌, ◌<◌, ◌≡◌, refl, sym, ap, ◌∙◌, ◌≢◌, Bool, true, ◌&&◌, none, some,
  List, [], ◌∷◌, ◌++◌, map, append-nil, append_assoc, arith, if◌then◌else◌, nat_eq-false, Bytes,
  nat_Eq, list_Eq, lookup, insert, delete, some_inj, ok, Bool-cases,
}

pub find-put :
    (c d : Control) (s : Scope) (cs : List Control)
    → find c.name cs ≡ some d
    → find s (put c cs) ≡ (if scope_eq c.name s then some c else find s cs)
unfolding find put
find-put c d s [] h = ground arith
find-put c d s (e ∷ es) h = ground (
  arith,
  scope_eq_iff e.name c.name,
  scope_eq_iff c.name s,
  scope_eq_iff e.name s,
  find-put c d s es,
)

pub move_out-some :
    (c : Control) (path : Bytes) (ps : Slice Proc)
    → lookup path c.ctl_proc_map ≡ some ps
    → move_out c path ≡ (some ps, record c { ctl_proc_map = delete path c.ctl_proc_map })
unfolding move_out
move_out-some c path ps h = rw (move_out, h) refl

-- What `DelCtlAppPath` leaves of a controller.
pub record Forgets (c c' : Control) (path : Bytes) : Type 0 where
  pub same_name : c'.name ≡ c.name
  pub same_procs : c'.ctl_proc_map ≡ c.ctl_proc_map
  pub paths : visible c'.ctl_path_sl ≡ remove_first path (visible c.ctl_path_sl)

pub del_ctl_app_path-Forgets :
    (spare : ℕ → List Bytes) (c : Control) (path : Bytes)
    → IsSlice c.ctl_path_sl
    → Forgets c (del_ctl_app_path spare c path) path
unfolding del_ctl_app_path
del_ctl_app_path-Forgets spare c path w =
    let (shown, flag, _) = mega_del_lem spare c.ctl_path_sl path w in
    elim (Bool-cases (mega_del spare c.ctl_path_sl path).1) [
      | inl t ↦
          rw (del_ctl_app_path, t) (record { same_name = refl; same_procs = refl; paths = shown })
      | inr f ↦
          rw (del_ctl_app_path, f)
            (record {
              same_name = refl;
              same_procs = refl;
              paths = sym (remove_first_absent path (visible c.ctl_path_sl) (sym flag ∙ f));
            })
    ]

module _ (echoes : Bytes → Bytes → Bool) where
  -- Every process has a number, and the shell moves it.
  abbrev pub Moves : Bytes → List Proc → Type 0
  Moves path [] = Unit {0}
  Moves path (p ∷ ps) = (is_pid p.pid ≡ true) × (echoes p.pid path ≡ true) × Moves path ps

  -- What a whole list adds to the log.
  abbrev pub moved : Bytes → List Proc → Log
  moved path ps = map (λ (p : Proc). (p.pid, path)) ps

  attach_lem :
      (pid path : Bytes) (log : Log)
      → is_pid pid ≡ true
      → echoes pid path ≡ true
      → attach echoes pid path log ≡ (ok tt, log ++ (pid, path) ∷ [])
  unfolding attach
  attach_lem pid path log h k = ground arith

  attach_all-Moves :
      (path : Bytes) (ps : List Proc) (log : Log)
      → Moves path ps
      → attach_all echoes path ps log ≡ (ok tt, log ++ moved path ps)
  unfolding attach_all
  attach_all-Moves path [] log m = ap (λ l. (ok tt, l)) (sym (append-nil log))
  attach_all-Moves path (p ∷ ps) log m =
      rw (attach_all, attach_lem p.pid path log m.0 m.1)
        (rw
          (
            attach_lem p.pid path log m.0 m.1,
            attach_all-Moves path ps (log ++ (p.pid, path) ∷ []) m.2,
          )
          (ap (λ l. (ok tt, l)) (append_assoc log ((p.pid, path) ∷ []) (moved path ps))))

  -- Where a process goes back to by itself: `Release` skips those that cannot be moved.
  abbrev pub goes_back : List Proc → Log
  goes_back [] = []
  goes_back (p ∷ ps) =
      if is_pid p.pid && echoes p.pid p.cgroup_path
      then (p.pid, p.cgroup_path) ∷ goes_back ps
      else goes_back ps

  pub release_lem : (ps : List Proc) (log : Log) → release echoes ps log ≡ log ++ goes_back ps
  unfolding release attach
  release_lem [] log = sym (append-nil log)
  release_lem (p ∷ ps) log =
      release_lem ps (attach echoes p.pid p.cgroup_path log).1
      ∙ ground (arith, append_assoc log ((p.pid, p.cgroup_path) ∷ []) (goes_back ps))

  module _ (spare : ℕ → List Proc) where
    -- When the lowest controller that has the path holds processes of it and ranks below the caller, the
    -- caller has none of it, each of the processes has a number for its identity, and the shell moves
    -- each of them, `UpdateFromManager` takes them all over: the holder keeps none of them, the caller has them, each was moved to the
    -- caller's cgroup, and no other controller has changed.
    pub update_from_manager_takes :
        (m : Cgroups) (c holder : Control) (path : Bytes) (ps : Slice Proc)
        → find c.name m.controllers ≡ some c
        → find holder.name m.controllers ≡ some holder
        → get_controller_by_ctl_path m.controllers path ≡ some holder
        → rank holder.priority < rank c.priority
        → lookup path holder.ctl_proc_map ≡ some ps
        → 1 ≤ ps.len
        → lookup path c.ctl_proc_map ≡ none
        → Moves (get_control_path c) (visible ps)
        → (m' : Cgroups) × (update_from_manager echoes spare m c path ≡ (ok tt, m'))
          × (m'.log ≡ m.log ++ moved (get_control_path c) (visible ps))
          × ((s : Scope)
              → find s m'.controllers ≡ (
                  if scope_eq c.name s
                  then some (record c { ctl_proc_map = insert path ps c.ctl_proc_map })
                  else if scope_eq holder.name s
                  then some (record holder { ctl_proc_map = delete path holder.ctl_proc_map })
                  else find s m.controllers))
    unfolding update_from_manager move_out move_in_at move_in
    update_from_manager_takes m c holder path ps fc fh at lower held some_there free able =
        let names_differ : holder.name ≢ c.name = λ e.
          let same : holder ≡ c = some_inj (sym fh ∙ ap (λ n. find n m.controllers) e ∙ fc) in
          omega (arith, ap (λ (x : Control). rank x.priority) same) in
        let holder' : Control = record holder { ctl_proc_map = delete path holder.ctl_proc_map } in
        let c' : Control = record c { ctl_proc_map = insert path ps c.ctl_proc_map } in
        let cs : List Control = put holder' m.controllers in
        let other : (if scope_eq holder.name c.name
              then some holder'
              else find c.name m.controllers)
            ≡ some c =
          ground (arith, scope_eq_iff holder.name c.name, names_differ) in
        (
          record {
            controllers = put c' cs;
            log = m.log ++ moved (get_control_path c) (visible ps);
          },
          rw
              (
                update_from_manager,
                at,
                leb-false (rank c.priority) (rank holder.priority) lower,
                move_out,
                held,
                nat_eq-false ps.len 0 (λ e. omega arith),
                move_in_at,
                move_in,
                free,
                attach_all-Moves (get_control_path c) (visible ps) m.log able,
              )
              (rw (move_out, held, attach_all-Moves (get_control_path c) (visible ps) m.log able)
                refl),
          refl,
          λ s. rw (find-put c' c s cs (find-put holder' holder c.name m.controllers fh ∙ other)) (
              ap (λ o. if scope_eq c.name s then some c' else o)
                (find-put holder' holder s m.controllers fh)),
        )
