-- ===== src/Iptables/Table/Child.antt =====
-- New chains: those of `Manager.Init`, and the children that `Chain.CreateChild` makes.
use mathlib.Core.Option.{none-ne-some}
use deepin_network_proxy.Prelude.{
  ◌∙◌, sym, ap, zero, Option, get_elem?-append_length, lookup, lookup-insert, ==_refl, Result, ok,
  err, ℕ, suc, ◌≡◌, refl, inl, inr, some, List, [], ◌∷◌, ◌++◌, Option-cases, length, get_elem?, set,
  length-set, get_elem?-lt, Bytes, nat_Eq, list_Eq, GoMap, insert, Result-cases,
}
use deepin_network_proxy.Iptables.Rules.{CompleteRule}
use deepin_network_proxy.Iptables.Kernel.{Iptables}
use deepin_network_proxy.Iptables.Chain.{ChainError, create_child}
use deepin_network_proxy.Iptables.Table.{
  Node, World, Tables, default_node, init_chains, init_tables, create_child_at,
}
use deepin_network_proxy.Iptables.Table.Shape.{
  parents, length-parents, parents-set, parents-snoc, Behind-insert, Behind-grows, IsTree,
  set-Within, Within-grows, append-Within, Steady-written,
}

snoc-IsTree :
    (heap : List Node) (leaf : Node) → leaf.children ≡ [] → IsTree heap → IsTree (heap ++ leaf ∷ [])
snoc-IsTree heap leaf bare t = rw (parents-snoc heap leaf) (
    append-Within heap leaf (parents heap ++ leaf.parent ∷ []) bare
      (Within-grows heap (parents heap) (leaf.parent ∷ []) t))

init_chains-IsTree :
    (table : Bytes) (names : List Bytes) (heap : List Node) (m : GoMap Bytes ℕ)
    → IsTree heap
    → IsTree (init_chains table names heap m).0
unfolding init_chains
init_chains-IsTree table [] heap m t = t
init_chains-IsTree table (name ∷ names) heap m t =
    init_chains-IsTree table names (heap ++ default_node table name ∷ [])
      (insert name (length heap) m) (snoc-IsTree heap (default_node table name) refl t)

pub init_tables-IsTree :
    (sl : List (Bytes × List Bytes)) (heap : List Node) (ts : Tables)
    → IsTree heap
    → IsTree (init_tables sl heap ts).0
unfolding init_tables
init_tables-IsTree [] heap ts t = t
init_tables-IsTree ((table, names) ∷ rest) heap ts t =
    init_tables-IsTree rest (init_chains table names heap []).0
      (insert table (init_chains table names heap []).1 ts)
      (init_chains-IsTree table names heap [] t)

get_elem?-snoc_old :
    (heap : List Node) (p : ℕ) (n n' leaf : Node)
    → get_elem? heap p ≡ some n
    → get_elem? (set heap p n' ++ leaf ∷ []) p ≡ some n'
get_elem?-snoc_old [] p n n' leaf e = absurd (none-ne-some n e)
get_elem?-snoc_old (x ∷ heap) zero n n' leaf e = refl
get_elem?-snoc_old (x ∷ heap) (suc p) n n' leaf e = get_elem?-snoc_old heap p n n' leaf e

lookup-insert_same :
    (key : Bytes) (q : ℕ) (m : GoMap Bytes ℕ) → lookup key (insert key q m) ≡ some q
lookup-insert_same key q m = lookup-insert key key q m ∙ rw (==_refl key) refl

module _ (K : Iptables) (spare : ℕ → List CompleteRule) where
  -- The child that has been created is entered in its parent, has it as its parent, and has no children.
  abbrev pub Entered : ℕ → Bytes → Result ChainError ℕ → List Node → Type 0
  Entered p name (err e) heap = Unit {0}
  Entered p name (ok place) heap =
      (n child : Node) × (get_elem? heap p ≡ some n)
      × (lookup name n.children ≡ some place)
      × (get_elem? heap place ≡ some child)
      × (child.parent ≡ some p)
      × (child.children ≡ [])

  -- `CreateChild` keeps that each chain's children stand behind it in the heap and have it as their
  -- parent, whatever its outcome; a child that it gives is entered under its name in its parent, has it
  -- as its parent, and has no children.
  pub create_child_at-IsTree :
      (p : ℕ) (name : Bytes) (index : ℕ) (r : CompleteRule) (w : World K spare)
      → IsTree w.heap
      → IsTree (create_child_at K spare p name index r w).1.heap
        × Entered p name
            (create_child_at K spare p name index r w).0
            (create_child_at K spare p name index r w).1.heap
  unfolding create_child_at
  create_child_at-IsTree p name index r w t = elim (Option-cases (get_elem? w.heap p)) [
    | inl e ↦ rw (create_child_at, e) (t, tt)
    | inr (n, e) ↦
        let made = create_child K spare n.chain name index r w.kernel in
        let place = length w.heap in
        elim (Result-cases made.0) [
          | inl (x, failed) ↦
              rw (create_child_at, e)
                (rw failed (
                  (Steady-written K spare w p n (record n { chain = made.1 }) made.2 t e refl
                      (t.behind p n e)).tree,
                  tt,
                ))
          | inr (child, ok_there) ↦
              let n' : Node = record n {
                chain = made.1;
                children = insert name place n.children;
              } in
              let leaf : Node = record { chain = child; parent = some p; children = [] } in
              let ps : List (Option ℕ) = parents w.heap ++ some p ∷ [] in
              let own : get_elem? ps place ≡ some (some p) =
                ap (get_elem? ps) (sym (length-parents w.heap))
                ∙ get_elem?-append_length (parents w.heap) (some p ∷ []) in
              let wide =
                Behind-insert p place ps name n.children (get_elem?-lt w.heap p e) own
                  (Behind-grows p (parents w.heap) (some p ∷ []) n.children (t.behind p n e)) in
              let links : parents (set w.heap p n' ++ leaf ∷ []) ≡ ps =
                parents-snoc (set w.heap p n') leaf
                ∙ ap (λ (qs : List (Option ℕ)). qs ++ some p ∷ [])
                    (parents-set w.heap p n n' e refl) in
              let there : get_elem? (set w.heap p n' ++ leaf ∷ []) place ≡ some leaf =
                ap (get_elem? (set w.heap p n' ++ leaf ∷ [])) (sym (length-set w.heap p n'))
                ∙ get_elem?-append_length (set w.heap p n') (leaf ∷ []) in
              rw (create_child_at, e)
                (rw ok_there (
                  rw links (
                      append-Within (set w.heap p n') leaf ps refl (
                        set-Within w.heap p ps n'
                          (Within-grows w.heap (parents w.heap) (some p ∷ []) t) wide)),
                  (
                    n',
                    leaf,
                    get_elem?-snoc_old w.heap p n n' leaf e,
                    lookup-insert_same name place n.children,
                    there,
                    refl,
                    refl,
                  ),
                ))
        ]
  ]
