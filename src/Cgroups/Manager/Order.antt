-- ===== src/Cgroups/Manager/Order.antt =====
-- The order of the controllers in the manager's list.
use deepin_network_proxy.Define.{Scope, scope_Eq, scope_eq_iff, Priority, rank}
use deepin_network_proxy.Cgroups.{Control, get_control_path}
use deepin_network_proxy.Cgroups.Controller.{check_ctl_path_sl}
use deepin_network_proxy.Cgroups.Manager.{
  Cgroups, check_controller_exist, sort_in, new_control, create_priority_controller,
  get_controller_by_ctl_path,
}
use deepin_network_proxy.Prelude.{
  ℕ, zero, suc, ◌≤◌, ◌<◌, ◌≡◌, sym, subst, ◌≢◌, inl, inr, Bool, true, false, some, List, [], ◌∷◌,
  arith, ltb, Bool-cases, get_elem?, Bytes, nat_Eq, list_Eq, some_inj,
}

-- Every controller of the list has a greater priority value and another name.
abbrev pub Above : Control → List Control → Type 0
Above c [] = Unit {0}
Above c (d ∷ ds) = (rank c.priority < rank d.priority) × (c.name ≢ d.name) × Above c ds

-- The priority values rise strictly, and no name stands twice.
abbrev pub IsOrdered : List Control → Type 0
IsOrdered [] = Unit {0}
IsOrdered (c ∷ cs) = Above c cs × IsOrdered cs

Above-sort_in :
    (b c : Control) (ds : List Control)
    → rank b.priority < rank c.priority
    → b.name ≢ c.name
    → Above b ds
    → Above b (sort_in c ds)
unfolding sort_in
Above-sort_in b c [] h k a = (h, k, tt)
Above-sort_in b c (d ∷ ds) h k a = elim (Bool-cases (ltb (rank c.priority) (rank d.priority))) [
  | inl front ↦ rw front (h, k, a)
  | inr behind ↦ rw behind (a.0, a.1, Above-sort_in b c ds h k a.2)
]

-- A controller below the first of an ordered list is below them all.
Above-first :
    (c d : Control) (ds : List Control)
    → rank c.priority < rank d.priority
    → Above d ds
    → check_controller_exist ds c.name c.priority ≡ false
    → Above c ds
unfolding check_controller_exist
Above-first c d [] h a k = tt
Above-first c d (e ∷ es) h a k = (
  omega (arith, a.0),
  ground (arith, scope_eq_iff e.name c.name),
  Above-first c d es h a.2 (ground arith),
)

sort_in-IsOrdered :
    (c : Control) (ds : List Control)
    → check_controller_exist ds c.name c.priority ≡ false
    → IsOrdered ds
    → IsOrdered (sort_in c ds)
unfolding sort_in check_controller_exist
sort_in-IsOrdered c [] h o = (tt, tt)
sort_in-IsOrdered c (d ∷ ds) h o = elim (Bool-cases (ltb (rank c.priority) (rank d.priority))) [
  | inl front ↦ rw front (
    ((
      ground arith,
      ground (arith, scope_eq_iff d.name c.name),
      Above-first c d ds (ground arith) o.0 (ground arith),
    )),
    o,
  )
  | inr behind ↦ rw behind (
    Above-sort_in d c ds (ground arith) (ground (arith, scope_eq_iff d.name c.name)) o.0,
    sort_in-IsOrdered c ds (ground arith) o.1,
  )
]

-- `CreatePriorityController` keeps the list ordered, whatever its outcome.
pub create_priority_controller-IsOrdered :
    (make_dir : Bytes → Bool) (m : Cgroups) (name : Scope) (priority : Priority)
    → IsOrdered m.controllers
    → IsOrdered (create_priority_controller make_dir m name priority).1.controllers
unfolding create_priority_controller
create_priority_controller-IsOrdered make_dir m name priority o =
    elim (Bool-cases (check_controller_exist m.controllers name priority)) [
      | inl there ↦ rw (create_priority_controller, there) o
      | inr free ↦ elim (Bool-cases (make_dir (get_control_path (new_control name priority)))) [
        | inl made ↦
            rw (create_priority_controller, free, made)
              (sort_in-IsOrdered (new_control name priority) m.controllers free o)
        | inr failed ↦ rw (create_priority_controller, free, failed) o
      ]
    ]

Above-rank :
    (c d : Control) (cs : List Control) (i : ℕ)
    → Above c cs
    → get_elem? cs i ≡ some d
    → rank c.priority < rank d.priority
Above-rank c d [] i a h = cc
Above-rank c d (e ∷ es) zero a h = subst (λ x. rank c.priority < rank x.priority) (some_inj h) a.0
Above-rank c d (e ∷ es) (suc i) a h = Above-rank c d es i a.2 h

first_least :
    (e d : Control) (es : List Control) (i : ℕ)
    → IsOrdered (e ∷ es)
    → get_elem? (e ∷ es) i ≡ some d
    → rank e.priority ≤ rank d.priority
first_least e d es zero o m =
    subst (λ x. rank e.priority ≤ rank x.priority) (some_inj m) (omega arith)
first_least e d es (suc i) o m = omega (arith, Above-rank e d es i o.0 m)

found_first :
    (e : Control) (es : List Control) (path : Bytes) (c d : Control) (i : ℕ)
    → IsOrdered (e ∷ es)
    → get_controller_by_ctl_path (e ∷ es) path ≡ some c
    → get_elem? (e ∷ es) i ≡ some d
    → check_ctl_path_sl e path ≡ true
    → (check_ctl_path_sl c path ≡ true) × (rank c.priority ≤ rank d.priority)
unfolding get_controller_by_ctl_path
found_first e es path c d i o h m here =
    let same : e ≡ c = some_inj (rw here at h) in
    (
      subst (λ x. check_ctl_path_sl x path ≡ true) same here,
      subst (λ x. rank x.priority ≤ rank d.priority) same (first_least e d es i o m),
    )

-- Of the controllers that list a path, `GetControllerByCtlPath` finds the one with the least
-- priority value.
pub get_controller_by_ctl_path_least :
    (cs : List Control) (path : Bytes) (c d : Control) (i : ℕ)
    → IsOrdered cs
    → get_controller_by_ctl_path cs path ≡ some c
    → get_elem? cs i ≡ some d
    → check_ctl_path_sl d path ≡ true
    → (check_ctl_path_sl c path ≡ true) × (rank c.priority ≤ rank d.priority)
unfolding get_controller_by_ctl_path
get_controller_by_ctl_path_least [] path c d i o h m k = cc
get_controller_by_ctl_path_least (e ∷ es) path c d zero o h m k =
    found_first e es path c d zero o h m
      (subst (λ x. check_ctl_path_sl x path ≡ true) (sym (some_inj m)) k)
get_controller_by_ctl_path_least (e ∷ es) path c d (suc i) o h m k =
    elim (Bool-cases (check_ctl_path_sl e path)) [
      | inl here ↦ found_first e es path c d (suc i) o h m here
      | inr there ↦ get_controller_by_ctl_path_least es path c d i o.1 (rw there at h) m k
    ]
