-- ===== src/Iptables/Chain/Child.antt =====
-- A child chain that is created at the end of its parent's rules, and deleted again.
use deepin_network_proxy.Prelude.{
  join_spaces, ℕ, ◌+◌, ◌≡◌, refl, sym, ap, subst, ◌∙◌, true, false, none, some, List, [], ◌∷◌, ◌++◌,
  map, arith, leb, nat_eq_refl, leb-false, length, get_elem?, length-append,
  get_elem?-append_length, length-take_le, take-length, drop-length, Bytes, codes, nat_Eq, list_Eq,
  ok,
}
use deepin_network_proxy.Com.Slices.{Slice, visible, mega_exist, mega_del}
use deepin_network_proxy.Com.Slices.Windows.{IsSlice}
use deepin_network_proxy.Com.Slices.Insert.{insert_at}
use deepin_network_proxy.Com.Slices.Delete.{remove_first, mega_del_lem}
use deepin_network_proxy.Iptables.Rules.{
  CompleteRule, rule_Eq, rule_string, rule_eq_iff, base_string, extends_string,
}
use deepin_network_proxy.Iptables.Kernel.{creates, inserts, deletes, Iptables}
use deepin_network_proxy.Iptables.Chain.{
  Chain, is_prefix, contains, find_jump, exist_rule, get_rule_by_index, get_create_child_index,
  create_child, del_rule, del_rule_by_index, del_child,
}
use deepin_network_proxy.Iptables.Chain.Mirror.{Mirrors, insert_rule_runs}

is_prefix-append : (xs ys : Bytes) → is_prefix xs (xs ++ ys) ≡ true
is_prefix-append [] ys = refl
is_prefix-append (x ∷ xs) ys = rw (nat_eq_refl x) (is_prefix-append xs ys)

is_prefix_self : (xs : Bytes) → is_prefix xs xs ≡ true
is_prefix_self [] = refl
is_prefix_self (x ∷ xs) = rw (nat_eq_refl x) (is_prefix_self xs)

contains_prefix : (s sub : Bytes) → is_prefix sub s ≡ true → contains s sub ≡ true
unfolding contains
contains_prefix [] sub h = h
contains_prefix (c ∷ cs) sub h = rw h refl

-- The text of a rule shows where it jumps to.
contains-rule_string :
    (r : CompleteRule) → contains (rule_string r) (codes "-j " ++ r.action) ≡ true
unfolding rule_string join_spaces
contains-rule_string r =
    contains_prefix (rule_string r) (codes "-j " ++ r.action)
      (starts r.action (map base_string r.base_sl ++ map extends_string r.extends_sl))
  where
    starts :
        (a : Bytes) (ws : List Bytes)
        → is_prefix (codes "-j " ++ a) (join_spaces (codes "-j" ∷ a ∷ ws)) ≡ true
    starts a [] = is_prefix_self a
    starts a (w ∷ ws) = is_prefix-append a (b' ' ∷ join_spaces (w ∷ ws))

find_jump-snoc :
    (rs : List CompleteRule) (r : CompleteRule)
    → find_jump r.action rs ≡ none
    → (mega_exist rs r ≡ false) × (find_jump r.action (rs ++ r ∷ []) ≡ some (length rs))
unfolding find_jump mega_exist
find_jump-snoc [] r h = (refl, rw (contains-rule_string r) refl)
find_jump-snoc (s ∷ rs) r h =
    ground (arith, find_jump-snoc rs r, contains-rule_string r, rule_eq_iff s r)

pub remove_first-snoc :
    (rs : List CompleteRule) (r : CompleteRule)
    → mega_exist rs r ≡ false
    → (mega_exist (rs ++ r ∷ []) r ≡ true) × (remove_first r (rs ++ r ∷ []) ≡ rs)
unfolding mega_exist remove_first
remove_first-snoc [] r h = ground (arith, rule_eq_iff r r)
remove_first-snoc (s ∷ rs) r h = ground (arith, remove_first-snoc rs r)

module _ (K : Iptables) (spare : ℕ → List CompleteRule) where
  -- `CreateChild` at the end of the rules, where the kernel takes both commands.
  create_child_runs :
      (c : Chain) (r : CompleteRule) (k k1 k2 : K.Kernel)
      → Mirrors K spare c k
      → find_jump r.action (visible c.cpl_rule_sl) ≡ none
      → K.run c.table creates r.action k ≡ some k1
      → K.run c.table (inserts (c.cpl_rule_sl.len + 1) r) c.name k1 ≡ some k2
      → (child : Chain) × (s : Slice CompleteRule) × (create_child K spare c r.action
            c.cpl_rule_sl.len r k
          ≡ (ok child, record c { cpl_rule_sl = s }, k2))
        × IsSlice s
        × (visible s ≡ visible c.cpl_rule_sl ++ r ∷ [])
        × (K.rules k2 c.table c.name ≡ K.rules k c.table c.name ++ r ∷ [])
  unfolding create_child exist_rule
  create_child_runs c r k k1 k2 m fresh made put =
      let child : Chain = record {
        name = r.action;
        table = c.table;
        cpl_rule_sl = record { array = []; len = 0 };
      } in
      let same = K.run_creates c.table r.action c.name made in
      let m1 : Mirrors K spare c k1 = record { slice = m.slice; same = m.same ∙ sym same } in
      let (absent, _) = find_jump-snoc (visible c.cpl_rule_sl) r fresh in
      let (s, e, w, shown, kept) =
        insert_rule_runs K spare c c.cpl_rule_sl.len r k1 k2 m1 (omega arith) absent put in
      let at_end : insert_at c.cpl_rule_sl.len r (visible c.cpl_rule_sl)
          ≡ visible c.cpl_rule_sl ++ r ∷ [] =
        subst (λ (i : ℕ). insert_at i r (visible c.cpl_rule_sl) ≡ visible c.cpl_rule_sl ++ r ∷ [])
          (length-take_le c.cpl_rule_sl.len c.cpl_rule_sl.array m.slice)
          (rw (take-length (visible c.cpl_rule_sl), drop-length (visible c.cpl_rule_sl)) refl) in
      (
        child,
        s,
        rw (create_child, made) (rw e refl),
        w,
        shown ∙ rw (nat_eq_refl c.cpl_rule_sl.len) at_end,
        kept ∙ at_end ∙ ap (λ rs. rs ++ r ∷ []) m.same,
      )

  -- `DelChild` undoes `CreateChild` at the end of the rules, where no rule jumped there before and the
  -- kernel takes the commands: chain and kernel list the rules that they listed at first.
  pub del_child-create_child :
      (c : Chain) (r : CompleteRule) (k k1 k2 k3 : K.Kernel)
      → Mirrors K spare c k
      → find_jump r.action (visible c.cpl_rule_sl) ≡ none
      → K.run c.table creates r.action k ≡ some k1
      → K.run c.table (inserts (c.cpl_rule_sl.len + 1) r) c.name k1 ≡ some k2
      → K.run c.table (deletes r) c.name k2 ≡ some k3
      → (child : Chain) × (c' : Chain) × (c'' : Chain) × (create_child K spare c r.action
            c.cpl_rule_sl.len r k
          ≡ (ok child, c', k2))
        × (del_child K spare c' r.action k2 ≡ (ok tt, c'', k3))
        × (visible c''.cpl_rule_sl ≡ visible c.cpl_rule_sl)
        × (K.rules k3 c.table c.name ≡ K.rules k c.table c.name)
  unfolding del_child get_create_child_index del_rule_by_index get_rule_by_index del_rule exist_rule
  del_child-create_child c r k k1 k2 k3 m fresh made put cut =
      let (absent, found) = find_jump-snoc (visible c.cpl_rule_sl) r fresh in
      let (there, gone) = remove_first-snoc (visible c.cpl_rule_sl) r absent in
      let (child, s, e, w, shown, kept) = create_child_runs c r k k1 k2 m fresh made put in
      let (left, flag, _) = mega_del_lem spare s r w in
      let v = visible c.cpl_rule_sl in
      let at : find_jump r.action (visible s) ≡ some (length v) =
        ap (find_jump r.action) shown ∙ found in
      let count : s.len ≡ length v + 1 =
        sym (length-take_le s.len s.array w) ∙ ap length shown ∙ length-append v (r ∷ []) in
      let inside : leb s.len (length v) ≡ false = leb-false s.len (length v) (omega arith) in
      let read : get_elem? (visible s) (length v) ≡ some r =
        ap (λ xs. get_elem? xs (length v)) shown ∙ get_elem?-append_length v (r ∷ []) in
      let known : mega_exist (visible s) r ≡ true = ap (λ xs. mega_exist xs r) shown ∙ there in
      let got : get_rule_by_index (record c { cpl_rule_sl = s }) (length v) ≡ some r =
        rw inside read in
      (
        child,
        record c { cpl_rule_sl = s },
        record c { cpl_rule_sl = (mega_del spare s r).0 },
        e,
        rw (del_child, at)
            (rw (del_rule_by_index, got) (rw (del_rule, known, cut) (rw (flag ∙ known) refl))),
        left ∙ ap (remove_first r) shown ∙ gone,
        K.run_deletes c.table c.name r cut
            ∙ ap (remove_first r) (kept ∙ ap (λ rs. rs ++ r ∷ []) (sym m.same))
            ∙ gone
            ∙ m.same,
      )
