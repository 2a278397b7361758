-- ===== src/Cgroups/Deletes.antt =====
-- What `DelCtlProc` of new_cgroups/controls_cgroups.go leaves of the processes at a path.
use deepin_network_proxy.Com.Slices.{Slice, visible, mega_del, mega_exist}
use deepin_network_proxy.Com.Slices.Windows.{IsSlice}
use deepin_network_proxy.Com.Slices.Delete.{remove_first, mega_del_lem}
use deepin_network_proxy.Cgroups.{Proc, proc_Eq, Control}
use deepin_network_proxy.Cgroups.Controller.{check_ctl_proc_exist, del_ctl_proc, procs_at, slice_at}
use deepin_network_proxy.Prelude.{
  ℕ, ◌-◌, ◌≡◌, refl, sym, ap, ◌∙◌, true, some, List, ◌++◌, drop, Bytes, nat_Eq, list_Eq, ==_refl,
  lookup, insert, lookup-insert,
}

slice_at_lem :
    (c : Control) (path : Bytes) (ps : Slice Proc)
    → lookup path c.ctl_proc_map ≡ some ps
    → slice_at c path ≡ ps
slice_at_lem c path ps h = rw (slice_at, h) refl

procs_at_lem :
    (c : Control) (path : Bytes) (ps : Slice Proc)
    → lookup path c.ctl_proc_map ≡ some ps
    → procs_at c path ≡ visible ps
procs_at_lem c path ps h = rw (procs_at, h) refl

-- `DelCtlProc` of a process that is there leaves as many entries as before: the process is gone
-- once, and the last entry of the path's processes stands there once more.
pub del_ctl_proc_lem :
    (spare : ℕ → List Proc) (c : Control) (p : Proc) (ps : Slice Proc)
    → lookup p.exec_path c.ctl_proc_map ≡ some ps
    → IsSlice ps
    → check_ctl_proc_exist c p ≡ true
    → procs_at (del_ctl_proc spare c p) p.exec_path
      ≡ remove_first p (visible ps) ++ drop (ps.len - 1) (visible ps)
unfolding del_ctl_proc check_ctl_proc_exist
del_ctl_proc_lem spare c p ps h w there =
    let (_, flag, after) = mega_del_lem spare ps p w in
    let same : slice_at c p.exec_path ≡ ps = slice_at_lem c p.exec_path ps h in
    let t : (mega_del spare ps p).1 ≡ true =
      flag ∙ ap (λ xs. mega_exist xs p) (sym (procs_at_lem c p.exec_path ps h)) ∙ there in
    let changed : Slice Proc = record ps { array = (mega_del spare ps p).2 } in
    let left : Control = record c { ctl_proc_map = insert p.exec_path changed c.ctl_proc_map } in
    let run : del_ctl_proc spare c p ≡ left = rw (del_ctl_proc, there, same) (rw t refl) in
    ap (λ d. procs_at d p.exec_path) run
    ∙ procs_at_lem left p.exec_path changed (
        lookup-insert p.exec_path p.exec_path changed c.ctl_proc_map
        ∙ rw (==_refl p.exec_path) refl)
    ∙ rw t at after
