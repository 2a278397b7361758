-- ===== src/Iptables/Chain/Mirror.antt =====
-- A chain's own list of rules against the rules that the kernel has in that chain.
use deepin_network_proxy.Com.Slices.{Slice, visible, mega_exist}
use deepin_network_proxy.Com.Slices.Windows.{IsSlice, append_slice-IsSlice, visible-append_slice}
use deepin_network_proxy.Com.Slices.Insert.{insert_at, mega_insert_lem, mega_insert-IsSlice}
use deepin_network_proxy.Com.Slices.Delete.{remove_first, mega_del_lem, mega_del-IsSlice}
use deepin_network_proxy.Iptables.Rules.{CompleteRule, rule_Eq, rule_eq_iff}
use deepin_network_proxy.Iptables.Kernel.{appends, deletes, inserts, Iptables}
use deepin_network_proxy.Iptables.Chain.{
  Chain, index_valid, exist_rule, append_rule, insert_rule, del_rule, del_rule_by_index,
  get_rule_by_index, del_child, get_create_child_index, Done,
}
use deepin_network_proxy.Prelude.{
  lengths, ℕ, zero, suc, ◌+◌, ◌≤◌, ◌<◌, ◌≡◌, refl, sym, ap, subst, ◌∙◌, ◌≢◌, inl, inr, Bool, true,
  false, some, List, [], ◌∷◌, ◌++◌, arith, nat_eq, if◌then◌else◌, le→leb, nat_eq_refl, nat_eq-false,
  Bool-cases, Option-cases, length, take, drop, Bytes, nat_Eq, list_Eq, ok,
}

module _ (K : Iptables) (spare : ℕ → List CompleteRule) where
  -- The chain lists just the rules of the kernel's chain, in their order.
  pub record Mirrors (c : Chain) (k : K.Kernel) : Type 0 where
    pub slice : IsSlice c.cpl_rule_sl
    pub same : visible c.cpl_rule_sl ≡ K.rules k c.table c.name

  -- What an operation leaves.
  abbrev pub Keeps : Done K spare → Type 0
  Keeps (_, c, k) = Mirrors c k

  -- `AppendRule` keeps the mirror, whatever its outcome.
  pub append_rule-Mirrors :
      (c : Chain) (r : CompleteRule) (k : K.Kernel)
      → Mirrors c k
      → Keeps (append_rule K spare c r k)
  unfolding append_rule
  append_rule-Mirrors c r k m = elim (Bool-cases (exist_rule c r)) [
    | inl there ↦ rw (append_rule, there) m
    | inr absent ↦ elim (Option-cases (K.run c.table (appends r) c.name k)) [
      | inl failed ↦ rw (append_rule, absent, failed) m
      | inr (k', done) ↦
          rw (append_rule, absent, done)
            (record {
              slice = append_slice-IsSlice spare c.cpl_rule_sl (r ∷ []) m.slice;
              same =
                  visible-append_slice spare c.cpl_rule_sl (r ∷ []) m.slice
                  ∙ ap (λ xs. xs ++ r ∷ []) m.same
                  ∙ sym (K.run_appends c.table c.name r done);
            })
    ]
  ]

  -- `DelRule` keeps the mirror, whatever its outcome.
  pub del_rule-Mirrors :
      (c : Chain) (r : CompleteRule) (k : K.Kernel) → Mirrors c k → Keeps (del_rule K spare c r k)
  unfolding del_rule exist_rule
  del_rule-Mirrors c r k m = elim (Bool-cases (exist_rule c r)) [
    | inr absent ↦ rw (del_rule, absent) m
    | inl there ↦ elim (Option-cases (K.run c.table (deletes r) c.name k)) [
      | inl failed ↦ rw (del_rule, there, failed) m
      | inr (k', done) ↦
          let (shown, flag, _) = mega_del_lem spare c.cpl_rule_sl r m.slice in
          rw (del_rule, there, done)
            (rw (flag ∙ there) (record {
              slice = mega_del-IsSlice spare c.cpl_rule_sl r m.slice;
              same = shown ∙ ap (remove_first r) m.same ∙ sym (K.run_deletes c.table c.name r done);
            }))
    ]
  ]

  -- `DelRuleByIndex` keeps the mirror too.
  pub del_rule_by_index-Mirrors :
      (c : Chain) (index : ℕ) (k : K.Kernel)
      → Mirrors c k
      → Keeps (del_rule_by_index K spare c index k)
  unfolding del_rule_by_index
  del_rule_by_index-Mirrors c index k m = elim (Option-cases (get_rule_by_index c index)) [
    | inl e ↦ rw (del_rule_by_index, e) m
    | inr (r, e) ↦ rw (del_rule_by_index, e) (del_rule-Mirrors c r k m)
  ]

  pub del_child-Mirrors :
      (c : Chain) (child : Bytes) (k : K.Kernel) → Mirrors c k → Keeps (del_child K spare c child k)
  unfolding del_child
  del_child-Mirrors c child k m = elim (Option-cases (get_create_child_index c child)) [
    | inl e ↦ rw (del_child, e) m
    | inr (i, e) ↦ rw (del_child, e) (del_rule_by_index-Mirrors c i k m)
  ]

  -- The list that `MegaInsert` shows.
  abbrev pub put_in : ℕ → ℕ → CompleteRule → List CompleteRule → List CompleteRule
  put_in index len r xs =
      if nat_eq index len
      then insert_at index r xs
      else take index xs ++ (r ∷ (if nat_eq (index + 1) len then [] else r ∷ drop (suc index) xs))

  -- A run of `InsertRule` that gets to the kernel and succeeds there.
  pub insert_rule_runs :
      (c : Chain) (index : ℕ) (r : CompleteRule) (k k' : K.Kernel)
      → Mirrors c k
      → index ≤ c.cpl_rule_sl.len
      → exist_rule c r ≡ false
      → K.run c.table (inserts (index + 1) r) c.name k ≡ some k'
      → (s : Slice CompleteRule) × (insert_rule K spare c index r k
          ≡ (ok tt, record c { cpl_rule_sl = s }, k'))
        × IsSlice s
        × (visible s ≡ put_in index c.cpl_rule_sl.len r (visible c.cpl_rule_sl))
        × (K.rules k' c.table c.name ≡ insert_at index r (visible c.cpl_rule_sl))
  unfolding insert_rule index_valid
  insert_rule_runs c index r k k' m small absent done =
      let (s, e, shown) = mega_insert_lem spare c.cpl_rule_sl r index m.slice small in
      (
        s,
        rw (insert_rule, le→leb index c.cpl_rule_sl.len small, absent, done) (rw e refl),
        mega_insert-IsSlice spare c.cpl_rule_sl r index m.slice small e,
        shown,
        K.run_inserts c.table c.name index r done ∙ ap (insert_at index r) (sym m.same),
      )

  -- `InsertRule` at the end of the list keeps the mirror, whatever its outcome.
  pub insert_rule-Mirrors :
      (c : Chain) (r : CompleteRule) (k : K.Kernel)
      → Mirrors c k
      → Keeps (insert_rule K spare c c.cpl_rule_sl.len r k)
  unfolding insert_rule index_valid
  insert_rule-Mirrors c r k m = elim (Bool-cases (exist_rule c r)) [
    | inl there ↦
        rw (insert_rule, le→leb c.cpl_rule_sl.len c.cpl_rule_sl.len (omega arith), there) m
    | inr absent ↦
        elim (Option-cases (K.run c.table (inserts (c.cpl_rule_sl.len + 1) r) c.name k)) [
          | inl failed ↦
              rw
                (
                  insert_rule,
                  le→leb c.cpl_rule_sl.len c.cpl_rule_sl.len (omega arith),
                  absent,
                  failed,
                )
                m
          | inr (k', done) ↦
              let (s, e, w, shown, kept) =
                insert_rule_runs c c.cpl_rule_sl.len r k k' m (omega arith) absent done in
              subst (λ (t : Done K spare). Keeps t) (sym e)
                (record {
                  slice = w;
                  same = shown ∙ rw (nat_eq_refl c.cpl_rule_sl.len) refl ∙ sym kept;
                })
        ]
  ]

  tail_inj : {x : CompleteRule} {xs ys : List CompleteRule} → x ∷ xs ≡ x ∷ ys → xs ≡ ys
  tail_inj e = cc

  -- The new rule is not in the list, so it does not stand behind itself.
  differs :
      (xs : List CompleteRule) (index : ℕ) (last : Bool) (r : CompleteRule)
      → mega_exist xs r ≡ false
      → index < length xs
      → (take index xs ++ (r ∷ (if last then [] else r ∷ drop (suc index) xs)))
        ≢ insert_at index r xs
  unfolding mega_exist
  differs [] index last r absent small e = elim small [ ]
  differs (x ∷ xs) zero true r absent small e = cc
  differs (x ∷ xs) zero false r absent small e =
      let same : r ≡ x = cc in ground (arith, rule_eq_iff x r, sym same)
  differs (x ∷ xs) (suc index) last r absent small e =
      differs xs index last r (ground arith) (omega arith) (tail_inj e)

  -- `InsertRule` of a new rule in front of another one, when it succeeds, breaks the mirror: the kernel
  -- has put the rule in at that place, and the chain lists other rules.
  pub insert_rule_diverges :
      (c : Chain) (index : ℕ) (r : CompleteRule) (k k' : K.Kernel)
      → Mirrors c k
      → index < c.cpl_rule_sl.len
      → exist_rule c r ≡ false
      → K.run c.table (inserts (index + 1) r) c.name k ≡ some k'
      → (s : Slice CompleteRule) × (insert_rule K spare c index r k
          ≡ (ok tt, record c { cpl_rule_sl = s }, k'))
        × (K.rules k' c.table c.name ≡ insert_at index r (K.rules k c.table c.name))
        × (visible s ≢ K.rules k' c.table c.name)
  unfolding exist_rule
  insert_rule_diverges c index r k k' m small absent done =
      let (s, e, w, shown, kept) = insert_rule_runs c index r k k' m (omega arith) absent done in
      let shown_length : index < length (visible c.cpl_rule_sl) = grind lengths in
      (
        s,
        e,
        K.run_inserts c.table c.name index r done,
        λ same.
            differs (visible c.cpl_rule_sl) index (nat_eq (index + 1) c.cpl_rule_sl.len) r absent
              shown_length
              (sym (shown ∙ rw (nat_eq-false index c.cpl_rule_sl.len (λ q. omega arith)) refl)
                ∙ same
                ∙ kept),
      )
