-- ===== src/Iptables/Table/Removal.antt =====
-- `Chain.Remove` and `Chain.Clear` end: a chain's children stand behind it in the heap.
use mathlib.Core.Option.{none-ne-some}
use deepin_network_proxy.Prelude.{
  subst, sym, get_elem?-lt, err, ℕ, zero, suc, ◌+◌, ◌≤◌, ◌<◌, ◌≡◌, refl, ◌∙◌, inl, inr, Option,
  none, some, List, [], ◌∷◌, map, arith, Bool-cases, Option-cases, length, get_elem?, set, Bytes,
  nat_Eq, list_Eq, ◌==◌, GoMap, delete, Result-cases,
}
use deepin_network_proxy.Iptables.Rules.{CompleteRule}
use deepin_network_proxy.Iptables.Kernel.{removes, Iptables}
use deepin_network_proxy.Iptables.Chain.{nil_chain, clear_rules}
use deepin_network_proxy.Iptables.Table.{
  ok, on_chain, Node, World, Outcome, child_name, del_child_at, detach, run_removes, remove_all,
  clear_with, remove, remove_chain,
}
use deepin_network_proxy.Iptables.Table.Shape.{
  Behind, Behind-delete, IsTree, parents, length-parents, Steady-size, Steady, Steady-self,
  Steady-trans, Steady-written, on_chain-Steady,
}

module _ (K : Iptables) (spare : ℕ → List CompleteRule) where
  del_child_at-Steady :
      (q p : ℕ) (w : World K spare)
      → IsTree w.heap
      → Steady K spare w (del_child_at K spare q p w).1
  unfolding del_child_at
  del_child_at-Steady q p w t = elim (Option-cases (get_elem? w.heap q)) [
    | inl e ↦ rw (del_child_at, e) (Steady-self K spare w t)
    | inr (m, e) ↦ elim (Option-cases (child_name p m.children)) [
      | inl c ↦ rw (del_child_at, e) (rw (del_child_at, c) (Steady-self K spare w t))
      | inr (key, c) ↦
          let m' : Node = record m { children = delete key m.children } in
          let w' : World K spare = record w { heap = set w.heap q m' } in
          let cut : Steady K spare w w' =
            Steady-written K spare w q m m' w.kernel t e refl
              (Behind-delete q (parents w.heap) key m.children (t.behind q m e)) in
          elim (Option-cases (get_elem? w.heap p)) [
            | inl gone ↦ rw (del_child_at, e) (rw (del_child_at, c) (rw (del_child_at, gone) cut))
            | inr (n, there) ↦ elim (Bool-cases (key == [])) [
              | inl empty ↦
                  rw (del_child_at, e)
                    (rw (del_child_at, c) (rw (del_child_at, there) (rw empty cut)))
              | inr named ↦
                  rw (del_child_at, e)
                    (rw (del_child_at, c)
                      (rw (del_child_at, there)
                        (rw named
                          (Steady-trans K spare cut (on_chain-Steady K spare _ q w' cut.tree)))))
            ]
          ]
    ]
  ]

  detach-Steady :
      (p : ℕ) (w : World K spare) → IsTree w.heap → Steady K spare w (detach K spare p w).1
  unfolding detach
  detach-Steady p w t = elim (Option-cases (get_elem? w.heap p)) [
    | inl e ↦ rw (detach, e) (Steady-self K spare w t)
    | inr (n, e) ↦ elim (Option-cases n.parent) [
      | inl none_there ↦ rw (detach, e) (rw (detach, none_there) (Steady-self K spare w t))
      | inr (q, e') ↦ rw (detach, e) (rw (detach, e') (del_child_at-Steady q p w t))
    ]
  ]

  -- A removal that has come to its end, with what it leaves.
  abbrev pub Ends : World K spare → Option (Outcome × World K spare) → Type 0
  Ends w none = ⊥
  Ends w (some (r, w')) = Steady K spare w w'

  ended :
      (w : World K spare) (x : Option (Outcome × World K spare))
      → Ends w x
      → (r : Outcome) × (w' : World K spare) × (x ≡ some (r, w')) × Steady K spare w w'
  ended w none h = absurd h
  ended w (some (r, w')) h = (r, w', refl, h)

  Ends-after :
      (w v : World K spare) (x : Option (Outcome × World K spare))
      → Steady K spare w v
      → Ends v x
      → Ends w x
  Ends-after w v none s h = h
  Ends-after w v (some (r, w')) s h = Steady-trans K spare s h

  remove_all-Steady :
      (rec : ℕ → World K spare → Option (Outcome × World K spare)) (p : ℕ) (ps : List (Option ℕ))
      (m : GoMap Bytes ℕ) (w : World K spare)
      → ((q : ℕ) (v : World K spare)
          → p < q
          → q < length v.heap
          → parents v.heap ≡ ps
          → IsTree v.heap
          → Ends v (rec q v))
      → Behind p ps m
      → parents w.heap ≡ ps
      → IsTree w.heap
      → (w' : World K spare) × (remove_all K spare rec (map (λ (e : Bytes × ℕ). e.1) m) w ≡ some w')
        × Steady K spare w w'
  unfolding remove_all
  remove_all-Steady rec p ps [] w ends b e t = (w, refl, Steady-self K spare w t)
  remove_all-Steady rec p ps ((name, q) ∷ m) w ends b e t =
      let small : q < length w.heap = rw (sym (length-parents w.heap), e) (get_elem?-lt ps q b.1) in
      let (r, v, first, s) = ended w (rec q w) (ends q w b.0 small e t) in
      let (w', rest, s') = remove_all-Steady rec p ps m v ends b.2 (s.links ∙ e) s.tree in
      (w', rw first rest, Steady-trans K spare s s')

  clear_with-Ends :
      (rec : ℕ → World K spare → Option (Outcome × World K spare)) (p : ℕ) (w : World K spare)
      → ((q : ℕ) (v : World K spare)
          → p < q
          → q < length v.heap
          → parents v.heap ≡ parents w.heap
          → IsTree v.heap
          → Ends v (rec q v))
      → IsTree w.heap
      → Ends w (clear_with K spare rec p w)
  unfolding clear_with
  clear_with-Ends rec p w ends t = elim (Option-cases (get_elem? w.heap p)) [
    | inl e ↦ rw (clear_with, e) (Steady-self K spare w t)
    | inr (n, e) ↦
        let (w', all, s) =
          remove_all-Steady rec p (parents w.heap) n.children w ends (t.behind p n e) refl t in
        rw (clear_with, e)
          (rw (clear_with, all)
            (Steady-trans K spare s (on_chain-Steady K spare (clear_rules K spare) p w' s.tree)))
  ]

  remove-Ends :
      (fuel p : ℕ) (w : World K spare)
      → IsTree w.heap
      → p < length w.heap
      → length w.heap ≤ fuel + p
      → Ends w (remove K spare fuel p w)
  unfolding remove
  remove-Ends zero p w t small enough = absurd (omega arith)
  remove-Ends (suc fuel) p w t small enough =
      let s1 = detach-Steady p w t in
      elim (Result-cases (detach K spare p w).0) [
        | inl (e, failed) ↦ rw (remove, failed) s1
        | inr (_, went) ↦
            let w1 = (detach K spare p w).1 in
            let (r2, w2, cleared, s2) = ended w1 (clear_with K spare (remove K spare fuel) p w1) (
              clear_with-Ends (remove K spare fuel) p w1
                (λ q v above inside same tree. remove-Ends fuel q v tree inside (
                  omega (
                    arith,
                    Steady-size K spare s1,
                    Steady-size K spare (record { tree = tree; links = same }),
                  )))
                s1.tree) in
            elim (Result-cases r2) [
              | inl (e, failed) ↦
                  rw (remove, went) (rw (remove, cleared) (rw failed (Steady-trans K spare s1 s2)))
              | inr (_, done) ↦
                  rw (remove, went)
                    (rw (remove, cleared)
                      (rw done (
                        Steady-trans K spare s1 (
                          Steady-trans K spare s2
                            (on_chain-Steady K spare (run_removes K spare) p w2 s2.tree)))))
            ]
      ]

  detach_missing :
      (p : ℕ) (w : World K spare)
      → get_elem? w.heap p ≡ none
      → detach K spare p w ≡ (err nil_chain, w)
  unfolding detach
  detach_missing p w e = rw (detach, e) refl

  -- A removal without an error has run the command that deletes the chain, as its last.
  abbrev pub Deletes : ℕ → Outcome → World K spare → Type 0
  Deletes p (err e) w = Unit {0}
  Deletes p (ok _) w =
      (n : Node) × (k : K.Kernel) × (get_elem? w.heap p ≡ some n)
      × (K.run n.chain.table removes n.chain.name k ≡ some w.kernel)

  abbrev DeletesIf : ℕ → Option (Outcome × World K spare) → Type 0
  DeletesIf p none = Unit {0}
  DeletesIf p (some (r, w)) = Deletes p r w

  get_elem?-set_same :
      (heap : List Node) (p : ℕ) (n m : Node)
      → get_elem? heap p ≡ some n
      → get_elem? (set heap p m) p ≡ some m
  get_elem?-set_same [] p n m e = absurd (none-ne-some n e)
  get_elem?-set_same (x ∷ heap) zero n m e = refl
  get_elem?-set_same (x ∷ heap) (suc p) n m e = get_elem?-set_same heap p n m e

  run_removes-Deletes :
      (p : ℕ) (w : World K spare)
      → Deletes p
          (on_chain K spare (run_removes K spare) p w).0
          (on_chain K spare (run_removes K spare) p w).1
  unfolding on_chain run_removes
  run_removes-Deletes p w = elim (Option-cases (get_elem? w.heap p)) [
    | inl e ↦ rw (on_chain, e) tt
    | inr (n, e) ↦ elim (Option-cases (K.run n.chain.table removes n.chain.name w.kernel)) [
      | inl failed ↦ rw (on_chain, e) (rw (run_removes, failed) tt)
      | inr (k', ran) ↦
          rw (on_chain, e)
            (rw (run_removes, ran) (n, w.kernel, get_elem?-set_same w.heap p n n e, ran))
    ]
  ]

  remove-DeletesIf : (fuel p : ℕ) (w : World K spare) → DeletesIf p (remove K spare fuel p w)
  unfolding remove
  remove-DeletesIf zero p w = tt
  remove-DeletesIf (suc fuel) p w = elim (Result-cases (detach K spare p w).0) [
    | inl (e, failed) ↦ rw (remove, failed) tt
    | inr (_, went) ↦
        let w1 = (detach K spare p w).1 in
        elim (Option-cases (clear_with K spare (remove K spare fuel) p w1)) [
          | inl over ↦ rw (remove, went) (rw (remove, over) tt)
          | inr ((r2, w2), cleared) ↦ elim (Result-cases r2) [
            | inl (e, failed) ↦ rw (remove, went) (rw (remove, cleared) (rw failed tt))
            | inr (_, done) ↦
                rw (remove, went) (rw (remove, cleared) (rw done (run_removes-Deletes p w2)))
          ]
        ]
  ]

  Deletes-found :
      (p : ℕ) {x : Option (Outcome × World K spare)} {r : Outcome} {w : World K spare}
      → DeletesIf p x
      → x ≡ some (r, w)
      → Deletes p r w
  Deletes-found p {x} {r} {w} d e = subst (DeletesIf p) e d

  remove_missing :
      (fuel p : ℕ) (w : World K spare)
      → get_elem? w.heap p ≡ none
      → remove K spare (suc fuel) p w ≡ some (err nil_chain, w)
  unfolding remove
  remove_missing fuel p w e = rw (remove, detach_missing p w e) (rw (detach_missing p w e) refl)

  -- Where each chain's children stand behind it in the heap and have it as their parent, `Remove` ends,
  -- whatever the commands do: it gives its outcome, without an error only when the command that deletes
  -- the chain has been run as the last one, and the chains are as many and linked in that way afterwards.
  pub remove_chain_ends :
      (p : ℕ) (w : World K spare)
      → IsTree w.heap
      → (r : Outcome) × (w' : World K spare) × (remove_chain K spare p w ≡ some (r, w'))
        × Deletes p r w'
        × IsTree w'.heap
        × (length w'.heap ≡ length w.heap)
  unfolding remove_chain
  remove_chain_ends p w t = elim (Option-cases (get_elem? w.heap p)) [
    | inl e ↦ (err nil_chain, w, remove_missing (length w.heap) p w e, tt, t, refl)
    | inr (n, e) ↦
        let (r, w', q, s) =
          ended w (remove K spare (suc (length w.heap)) p w)
            (remove-Ends (suc (length w.heap)) p w t (get_elem?-lt w.heap p e) (omega arith)) in
        (
          r,
          w',
          q,
          Deletes-found p (remove-DeletesIf (suc (length w.heap)) p w) q,
          s.tree,
          Steady-size K spare s,
        )
  ]
