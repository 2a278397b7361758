-- ===== src/Cgroups/Manager/Returns.antt =====
-- The way back: `ReleaseToManager`.
use deepin_network_proxy.Prelude.{
  ℕ, ◌≡◌, refl, ap, ◌∙◌, inl, inr, Bool, none, some, List, ◌++◌, append-nil, nat_eq, if◌then◌else◌,
  nat_eq_iff, Bool-cases, Bytes, nat_Eq, list_Eq, ==_refl, lookup, delete, lookup-delete, ok,
}
use deepin_network_proxy.Define.{Scope, scope_eq}
use deepin_network_proxy.Com.Slices.{Slice, visible}
use deepin_network_proxy.Com.Slices.Windows.{IsSlice}
use deepin_network_proxy.Com.Slices.Delete.{remove_first}
use deepin_network_proxy.Cgroups.{Proc, Control}
use deepin_network_proxy.Cgroups.Controller.{del_ctl_app_path}
use deepin_network_proxy.Cgroups.Manager.{
  release_to_manager, Cgroups, get_controller_by_ctl_path, find, put,
}
use deepin_network_proxy.Cgroups.Manager.Moves.{
  find-put, move_out-some, del_ctl_app_path-Forgets, goes_back, release_lem,
}

module _ (echoes : Bytes → Bytes → Bool) (spare : ℕ → List Proc) where
  -- A controller without the path and without its processes.
  abbrev pub released : (ℕ → List Bytes) → Control → Bytes → Control
  released spare_paths c path =
      let d = del_ctl_app_path spare_paths c path in
      record d { ctl_proc_map = delete path d.ctl_proc_map }

  run_release :
      (spare_paths : ℕ → List Bytes) (m : Cgroups) (c : Control) (path : Bytes) (ps : Slice Proc)
      → lookup path (del_ctl_app_path spare_paths c path).ctl_proc_map ≡ some ps
      → get_controller_by_ctl_path (put (released spare_paths c path) m.controllers) path ≡ none
      → release_to_manager echoes spare spare_paths m c path ≡ (
        ok tt,
        record {
          controllers = put (released spare_paths c path) m.controllers;
          log = m.log ++ goes_back echoes (visible ps);
        },
      )
  unfolding release_to_manager
  run_release spare_paths m c path ps held gone =
      let out = move_out-some (del_ctl_app_path spare_paths c path) path ps held in
      elim (Bool-cases (nat_eq ps.len 0)) [
        | inl z ↦
            rw (release_to_manager, out)
              (rw (out, z) (rw ((nat_eq_iff ps.len 0).0 z, append-nil m.log) refl))
        | inr n ↦
            rw (release_to_manager, out)
              (rw (out, n, gone, release_lem echoes (visible ps) m.log) (rw out refl))
      ]

  -- When no controller lists the path any more, `ReleaseToManager` sends the processes back to where
  -- they came from, passing over those that cannot be moved; the caller lists the path once less
  -- and keeps none of its processes, and no other controller has changed.
  pub release_to_manager_returns :
      (spare_paths : ℕ → List Bytes) (m : Cgroups) (c : Control) (path : Bytes) (ps : Slice Proc)
      → find c.name m.controllers ≡ some c
      → IsSlice c.ctl_path_sl
      → lookup path c.ctl_proc_map ≡ some ps
      → get_controller_by_ctl_path (put (released spare_paths c path) m.controllers) path ≡ none
      → (m' : Cgroups) × (c' : Control) × (release_to_manager echoes spare spare_paths m c path
          ≡ (ok tt, m'))
        × (m'.log ≡ m.log ++ goes_back echoes (visible ps))
        × (visible c'.ctl_path_sl ≡ remove_first path (visible c.ctl_path_sl))
        × (lookup path c'.ctl_proc_map ≡ none)
        × ((s : Scope)
            → find s m'.controllers ≡ (if scope_eq c.name s then some c' else find s m.controllers))
  unfolding release_to_manager
  release_to_manager_returns spare_paths m c path ps fc w held gone =
      let f = del_ctl_app_path-Forgets spare_paths c path w in
      let c' : Control = released spare_paths c path in
      let held' : lookup path (del_ctl_app_path spare_paths c path).ctl_proc_map ≡ some ps =
        ap (lookup path) f.same_procs ∙ held in
      let fc' : find c'.name m.controllers ≡ some c =
        ap (λ n. find n m.controllers) f.same_name ∙ fc in
      (
        record { controllers = put c' m.controllers; log = m.log ++ goes_back echoes (visible ps) },
        c',
        run_release spare_paths m c path ps held' gone,
        refl,
        f.paths,
        lookup-delete path path (del_ctl_app_path spare_paths c path).ctl_proc_map
            ∙ rw (==_refl path) refl,
        λ s.
            find-put c' c s m.controllers fc'
            ∙ ap (λ n. if scope_eq n s then some c' else find s m.controllers) f.same_name,
      )
