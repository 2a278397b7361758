-- ===== src/Cgroups/Manager/ReleaseAll.antt =====
-- `ReleaseAll` of new_cgroups/controls_cgroups.go on a list of three paths or more.
use mathlib.Core.Bool.{false≢true}
use deepin_network_proxy.Define.{scope_Eq, scope_eq_iff}
use deepin_network_proxy.Com.Slices.{Slice, mega_del, mega_exist, find_index}
use deepin_network_proxy.Cgroups.{Scope, Proc, proc_Eq, Control, Log, get_cgroup_path}
use deepin_network_proxy.Cgroups.Controller.{Outcome, check_ctl_path_sl, del_ctl_app_path}
use deepin_network_proxy.Cgroups.Manager.{
  release_all, release_loop, find, Cgroups, release_to_manager,
}
use deepin_network_proxy.Prelude.{
  ℕ, zero, suc, ◌+◌, ◌-◌, ◌≤◌, ◌≡◌, refl, sym, ap, subst, ◌∙◌, ◌≢◌, inl, inr, Bool, true, false,
  some, List, [], ◌∷◌, arith, nat_eq-false, Bool-cases, Option-cases, length, get_elem?, take,
  Bytes, nat_Eq, list_Eq, ==_refl, some_inj, Result-cases,
}
use deepin_network_proxy.Cgroups.Manager.Leads.{led_by, Leads, mega_del_first, Leads-mega_del}
use deepin_network_proxy.Cgroups.Manager.Alone.{alone, release_to_manager-Alone}

module _ (echoes : Bytes → Bytes → Bool) (spare : ℕ → List Proc) where
  del_ctl_app_path-Leads :
      (spare_paths : ℕ → List Bytes) (b x : Bytes) (c : Control)
      → Leads b c.ctl_path_sl
      → Leads b (mega_del spare_paths c.ctl_path_sl x).0
      → Leads b (del_ctl_app_path spare_paths c x).ctl_path_sl
  unfolding del_ctl_app_path
  del_ctl_app_path-Leads spare_paths b x c before after =
      elim (Bool-cases (mega_del spare_paths c.ctl_path_sl x).1) [
        | inl t ↦ rw (del_ctl_app_path, t) after
        | inr f ↦ rw (del_ctl_app_path, f) before
      ]

  find_alone : (c : Control) (name : Scope) → c.name ≡ name → find name (c ∷ []) ≡ some c
  unfolding find
  find_alone c name e = rw (find, (scope_eq_iff c.name name).1 e) refl

  elem_exist :
      (xs : List Bytes) (i : ℕ) (x : Bytes) → get_elem? xs i ≡ some x → mega_exist xs x ≡ true
  unfolding mega_exist
  elem_exist [] i x h = cc
  elem_exist (y ∷ ys) zero x h = rw (some_inj h, ==_refl x) refl
  elem_exist (y ∷ ys) (suc i) x h = ground (arith, elem_exist ys i x h)

  -- The controller is still there, with `b` in front.
  abbrev StillLed : Bytes → Outcome × Cgroups → Type 0
  StillLed b r = (c : Control) × (r.1.controllers ≡ c ∷ []) × Leads b c.ctl_path_sl

  loop-StillLed :
      (spare_paths : ℕ → List Bytes) (b : Bytes) (n i : ℕ) (c : Control) (log : Log) (name : Scope)
      → c.name ≡ name
      → Leads b c.ctl_path_sl
      → StillLed b (release_loop echoes spare spare_paths n (suc i) (alone c log) name)
  unfolding release_loop
  loop-StillLed spare_paths b zero i c log name same l = (c, refl, l)
  loop-StillLed spare_paths b (suc n) i c log name same l =
      elim (Option-cases (get_elem? c.ctl_path_sl.array (suc i))) [
        | inl e ↦ rw (release_loop, find_alone c name same, e) (c, refl, l)
        | inr (path, e) ↦
            let there : mega_exist l.others path ≡ true =
              elem_exist l.others i path (ap (λ a. get_elem? a (suc i)) (sym l.starts) ∙ e) in
            let other : path ≢ b =
              λ p. false≢true (sym l.once ∙ subst (λ x. mega_exist l.others x ≡ true) p there) in
            let r = release_to_manager echoes spare spare_paths (alone c log) c path in
            let a = release_to_manager-Alone echoes spare spare_paths c log path in
            let led : Leads b a.control.ctl_path_sl = subst (Leads b) (sym a.paths) (
              del_ctl_app_path-Leads spare_paths b path c l
                (Leads-mega_del spare_paths b path c.ctl_path_sl l other)) in
            let back : alone a.control r.1.log ≡ r.1 =
              λ j. record { controllers = sym a.only j; log = r.1.log } in
            let rest : StillLed b (release_loop echoes spare spare_paths n (suc (suc i)) r.1 name) =
              subst (λ m. StillLed b (release_loop echoes spare spare_paths n (suc (suc i)) m name))
                back
                (loop-StillLed spare_paths b n (suc i) a.control r.1.log name (a.name ∙ same)
                  led) in
            elim (Result-cases r.0) [
              | inl (x, failed) ↦
                  rw (release_loop, find_alone c name same, e, failed) (a.control, a.only, led)
              | inr (u, done) ↦ rw (release_loop, find_alone c name same, e, done) rest
            ]
      ]

  shown_first : (b : Bytes) (xs : List Bytes) → mega_exist (b ∷ xs) b ≡ true
  unfolding mega_exist
  shown_first b xs = rw (mega_exist, ==_refl b) refl

  Leads-check_ctl_path_sl :
      (b : Bytes) (c : Control) → Leads b c.ctl_path_sl → check_ctl_path_sl c b ≡ true
  unfolding check_ctl_path_sl
  Leads-check_ctl_path_sl b c l =
      let whole : led_by b l.others (suc (c.ctl_path_sl.len - 1)) ≡ c.ctl_path_sl =
        (let same : suc (c.ctl_path_sl.len - 1) ≡ c.ctl_path_sl.len = omega (arith, l.shown) in
          λ i. record { array = sym l.starts i; len = same i }) in
      rw (check_ctl_path_sl, ← whole) (shown_first b (take (c.ctl_path_sl.len - 1) l.others))

  first_deleted :
      (spare_paths : ℕ → List Bytes) (c : Control) (a b d : Bytes) (rest : List Bytes) (q : ℕ)
      → q ≤ length rest
      → c.ctl_path_sl ≡ led_by a (b ∷ d ∷ rest) (3 + q)
      → a ≢ b
      → mega_exist (d ∷ rest) b ≡ false
      → Leads b (del_ctl_app_path spare_paths c a).ctl_path_sl
  unfolding del_ctl_app_path mega_del find_index
  first_deleted spare_paths c a b d rest q room h other once =
      let shape : c.ctl_path_sl ≡ led_by a (b ∷ d ∷ rest) (suc (suc (suc q))) =
        h ∙ ap (λ (n : ℕ). led_by a (b ∷ d ∷ rest) n) (omega arith) in
      let found : find_index a (a ∷ b ∷ d ∷ take q rest) ≡ some 0 =
        rw (find_index, ==_refl a) refl in
      let flag : (mega_del spare_paths c.ctl_path_sl a).1 ≡ true =
        rw shape (
          rw (mega_del, found) (rw (nat_eq-false 1 (suc (suc (suc q))) (λ e. omega arith)) refl)) in
      rw (del_ctl_app_path, flag)
        (subst (λ t. Leads b (mega_del spare_paths t a).0) (sym shape)
          (mega_del_first spare_paths a b d rest q other once (omega arith)))

  first_round :
      (spare_paths : ℕ → List Bytes) (n : ℕ) (c : Control) (log : Log) (a b : Bytes)
      → get_elem? c.ctl_path_sl.array 0 ≡ some a
      → Leads b (del_ctl_app_path spare_paths c a).ctl_path_sl
      → StillLed b (release_loop echoes spare spare_paths (suc n) 0 (alone c log) c.name)
  unfolding release_loop
  first_round spare_paths n c log a b e led0 =
      let r = release_to_manager echoes spare spare_paths (alone c log) c a in
      let t = release_to_manager-Alone echoes spare spare_paths c log a in
      let led : Leads b t.control.ctl_path_sl = subst (Leads b) (sym t.paths) led0 in
      let back : alone t.control r.1.log ≡ r.1 =
        λ j. record { controllers = sym t.only j; log = r.1.log } in
      let rest : StillLed b (release_loop echoes spare spare_paths n 1 r.1 c.name) =
        subst (λ m. StillLed b (release_loop echoes spare spare_paths n 1 m c.name)) back
          (loop-StillLed spare_paths b n 0 t.control r.1.log c.name t.name led) in
      elim (Result-cases r.0) [
        | inl (x, failed) ↦
            rw (release_loop, find_alone c c.name refl, e, failed) (t.control, t.only, led)
        | inr (u, done) ↦ rw (release_loop, find_alone c c.name refl, e, done) rest
      ]

  release_all_same :
      (spare_paths : ℕ → List Bytes) (remove_all : Bytes → Bool) (m : Cgroups) (c : Control)
      → (release_all echoes spare spare_paths remove_all m c).1
        ≡ (release_loop echoes spare spare_paths c.ctl_path_sl.len 0 m c.name).1
  unfolding release_all
  release_all_same spare_paths remove_all m c =
      elim (Result-cases (release_loop echoes spare spare_paths c.ctl_path_sl.len 0 m c.name).0) [
        | inl (x, failed) ↦ rw (release_all, failed) refl
        | inr (u, done) ↦ elim (Bool-cases (remove_all (get_cgroup_path c))) [
          | inl removed ↦ rw (release_all, done, removed) refl
          | inr kept ↦ rw (release_all, done, kept) refl
        ]
      ]

  -- `ReleaseAll` of a controller that is alone in its manager and lists three paths or more, the second
  -- of which stands nowhere else in the array of the slice, its spare capacity included, does not
  -- release the second one: whatever the outcome, the controller still lists it.
  pub release_all_keeps_second :
      (spare_paths : ℕ → List Bytes) (remove_all : Bytes → Bool) (c : Control) (log : Log)
      (a b d : Bytes) (rest : List Bytes) (q : ℕ)
      → q ≤ length rest
      → c.ctl_path_sl ≡ record { array = a ∷ b ∷ d ∷ rest; len = 3 + q }
      → a ≢ b
      → mega_exist (d ∷ rest) b ≡ false
      → (c' : Control) × ((release_all echoes spare spare_paths remove_all
            (record { controllers = c ∷ []; log = log })
            c).1.controllers
          ≡ c' ∷ [])
        × (check_ctl_path_sl c' b ≡ true)
  release_all_keeps_second spare_paths remove_all c log a b d rest q room h other once =
      let (c', only, led) =
        subst
          (λ (n : ℕ). StillLed b (release_loop echoes spare spare_paths n 0 (alone c log) c.name))
          (let e : suc (2 + q) ≡ c.ctl_path_sl.len =
              omega (arith, ap (λ (s : Slice Bytes). s.len) h) in
            e)
          (first_round spare_paths (2 + q) c log a b
            (ap (λ (s : Slice Bytes). get_elem? s.array 0) h)
            (first_deleted spare_paths c a b d rest q room h other once)) in
      (
        c',
        ap (λ (m : Cgroups). m.controllers)
              (release_all_same spare_paths remove_all (alone c log) c)
            ∙ only,
        Leads-check_ctl_path_sl b c' led,
      )
