-- ===== src/Iptables/Table/Shape.antt =====
-- The heap of chains: each child stands behind its parent and has a link to it, so that
-- removing a chain ends.
use mathlib.Core.Option.{none-ne-some}
use deepin_network_proxy.Prelude.{
  zero, suc, ap, Option, map, get_elem?-lt, get_elem?-append_lt, ◌++◌, get_elem?-snoc, List, [],
  ◌∷◌, ℕ, ◌<◌, ◌≡◌, refl, sym, subst, ◌∙◌, inl, inr, ◌&&◌, some, arith, ltb, nat_eq, nat_eq_iff,
  Bool-cases, Option-cases, length, get_elem?, set, get_elem?-set, Bytes, nat_Eq, list_Eq, ◌==◌,
  GoMap, insert, delete, some_inj,
}
use deepin_network_proxy.Iptables.Rules.{CompleteRule}
use deepin_network_proxy.Iptables.Kernel.{Iptables}
use deepin_network_proxy.Iptables.Chain.{Chain, Done}
use deepin_network_proxy.Iptables.Table.{Node, World, on_chain}

-- The parent of each chain of a heap.
abbrev pub parents : List Node → List (Option ℕ)
parents heap = map (λ (n : Node). n.parent) heap

-- The entries of a map of children of `p` stand behind it and have it as their parent.
abbrev pub Behind : ℕ → List (Option ℕ) → GoMap Bytes ℕ → Type 0
Behind p ps [] = Unit {0}
Behind p ps ((name, q) ∷ m) = (p < q) × (get_elem? ps q ≡ some (some p)) × Behind p ps m

pub record Within (heap : List Node) (ps : List (Option ℕ)) : Type 0 where
  pub behind : (p : ℕ) (n : Node) → get_elem? heap p ≡ some n → Behind p ps n.children

-- Each chain's children stand behind it and have it as their parent, so that no chain is the child of
-- two.
abbrev pub IsTree : List Node → Type 0
IsTree heap = Within heap (parents heap)

pub length-parents : (heap : List Node) → length (parents heap) ≡ length heap
length-parents [] = refl
length-parents (n ∷ heap) = ap suc (length-parents heap)

pub parents-set :
    (heap : List Node) (p : ℕ) (n n' : Node)
    → get_elem? heap p ≡ some n
    → n'.parent ≡ n.parent
    → parents (set heap p n') ≡ parents heap
parents-set [] p n n' e h = absurd (none-ne-some n e)
parents-set (m ∷ heap) zero n n' e h =
    ap (λ (o : Option ℕ). o ∷ parents heap) (h ∙ ap (λ (x : Node). x.parent) (sym (some_inj e)))
parents-set (m ∷ heap) (suc p) n n' e h = ap (◌∷◌ m.parent) (parents-set heap p n n' e h)

pub parents-snoc :
    (heap : List Node) (leaf : Node)
    → parents (heap ++ leaf ∷ []) ≡ parents heap ++ leaf.parent ∷ []
parents-snoc [] leaf = refl
parents-snoc (n ∷ heap) leaf = ap (◌∷◌ n.parent) (parents-snoc heap leaf)

pub Behind-delete :
    (p : ℕ) (ps : List (Option ℕ)) (key : Bytes) (m : GoMap Bytes ℕ)
    → Behind p ps m
    → Behind p ps (delete key m)
unfolding delete
Behind-delete p ps key [] b = tt
Behind-delete p ps key ((name, q) ∷ m) b = elim (Bool-cases (name == key)) [
  | inl same ↦ rw same (Behind-delete p ps key m b.2)
  | inr other ↦ rw other (b.0, b.1, Behind-delete p ps key m b.2)
]

pub Behind-insert :
    (p q : ℕ) (ps : List (Option ℕ)) (key : Bytes) (m : GoMap Bytes ℕ)
    → p < q
    → get_elem? ps q ≡ some (some p)
    → Behind p ps m
    → Behind p ps (insert key q m)
unfolding insert
Behind-insert p q ps key [] h k b = (h, k, tt)
Behind-insert p q ps key ((name, r) ∷ m) h k b = elim (Bool-cases (name == key)) [
  | inl same ↦ rw same (h, k, b.2)
  | inr other ↦ rw other (b.0, b.1, Behind-insert p q ps key m h k b.2)
]

pub Behind-grows :
    (p : ℕ) (ps more : List (Option ℕ)) (m : GoMap Bytes ℕ)
    → Behind p ps m
    → Behind p (ps ++ more) m
Behind-grows p ps more [] b = tt
Behind-grows p ps more ((name, q) ∷ m) b =
    (b.0, get_elem?-append_lt ps more q (get_elem?-lt ps q b.1) ∙ b.1, Behind-grows p ps more m b.2)

-- A node is written back with children that stand behind it.
pub set-Within :
    (heap : List Node) (p : ℕ) (ps : List (Option ℕ)) (n : Node)
    → Within heap ps
    → Behind p ps n.children
    → Within (set heap p n) ps
set-Within heap p ps n t b = record {
  behind = λ q m e. elim (Bool-cases (nat_eq p q && ltb p (length heap))) [
    | inl here ↦
        let same : p ≡ q = ground (arith, nat_eq_iff p q) in
        let read : some n ≡ some m = rw here at (sym (get_elem?-set heap p q n) ∙ e) in
        subst (λ (x : Node). Behind q ps x.children) (some_inj read)
          (subst (λ (i : ℕ). Behind i ps n.children) same b)
    | inr there ↦
        let read : get_elem? heap q ≡ some m = rw there at (sym (get_elem?-set heap p q n) ∙ e) in
        t.behind q m read
  ];
}

pub Within-grows :
    (heap : List Node) (ps more : List (Option ℕ)) → Within heap ps → Within heap (ps ++ more)
Within-grows heap ps more t = record {
  behind = λ p n e. Behind-grows p ps more n.children (t.behind p n e);
}

-- A chain without children at the end of the heap.
pub append-Within :
    (heap : List Node) (leaf : Node) (ps : List (Option ℕ))
    → leaf.children ≡ []
    → Within heap ps
    → Within (heap ++ leaf ∷ []) ps
append-Within heap leaf ps bare t = record {
  behind = λ p n e. elim (get_elem?-snoc heap leaf p e) [
    | inl old ↦ t.behind p n old
    | inr new ↦
        subst (λ (x : Node). Behind p ps x.children) new
          (subst (λ (m : GoMap Bytes ℕ). Behind p ps m) (sym bare) tt)
  ];
}

module _ (K : Iptables) (spare : ℕ → List CompleteRule) where
  -- What a step leaves: a tree again, of the same chains with the same parents.
  pub record Steady (w w' : World K spare) : Type 0 where
    pub tree : IsTree w'.heap
    pub links : parents w'.heap ≡ parents w.heap

  pub Steady-size : {w w' : World K spare} → Steady w w' → length w'.heap ≡ length w.heap
  Steady-size {w} {w'} s =
      sym (length-parents w'.heap)
      ∙ ap (λ (ps : List (Option ℕ)). length ps) s.links
      ∙ length-parents w.heap

  pub Steady-self : (w : World K spare) → IsTree w.heap → Steady w w
  Steady-self w t = record { tree = t; links = refl }

  pub Steady-trans : {w w' w'' : World K spare} → Steady w w' → Steady w' w'' → Steady w w''
  Steady-trans a b = record { tree = b.tree; links = b.links ∙ a.links }

  pub Steady-written :
      (w : World K spare) (p : ℕ) (n n' : Node) (k : K.Kernel)
      → IsTree w.heap
      → get_elem? w.heap p ≡ some n
      → n'.parent ≡ n.parent
      → Behind p (parents w.heap) n'.children
      → Steady w (record w { heap = set w.heap p n'; kernel = k })
  Steady-written w p n n' k t e h b =
      let links = parents-set w.heap p n n' e h in
      record {
        tree =
            subst (Within (set w.heap p n')) (sym links)
              (set-Within w.heap p (parents w.heap) n' t b);
        links = links;
      }

  pub on_chain-Steady :
      (op : Chain → K.Kernel → Done K spare) (p : ℕ) (w : World K spare)
      → IsTree w.heap
      → Steady w (on_chain K spare op p w).1
  unfolding on_chain
  on_chain-Steady op p w t = elim (Option-cases (get_elem? w.heap p)) [
    | inl e ↦ rw (on_chain, e) (Steady-self w t)
    | inr (n, e) ↦
        rw (on_chain, e)
          (Steady-written w p n (record n { chain = (op n.chain w.kernel).1 })
            (op n.chain w.kernel).2 t e refl (t.behind p n e))
  ]
