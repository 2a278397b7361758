-- ===== src/Iptables/Table.antt =====
-- new_iptables/iptables.go and manager.go: the tree of chains of each table. A chain is a number, the
-- place where the heap holds it: a created chain takes the next one, so that pointers to chains that
-- have been removed, which the program keeps, stay what they are. Go ranges over a map in an order of
-- its own; here it is the order of the bindings.
pub mod Shape
pub mod Removal
pub mod Child
use deepin_network_proxy.Prelude.{
  ℕ, zero, suc, ◌+◌, ap, Option, none, some, List, [], ◌∷◌, ◌++◌, map, nat_eq, if◌then◌else◌,
  length, get_elem?, set, Bytes, codes, Eq, nat_Eq, list_Eq, ◌==◌, GoMap, lookup, insert, delete,
  Result, ok, err,
}
use deepin_network_proxy.Iptables.Rules.{CompleteRule}
use deepin_network_proxy.Iptables.Kernel.{removes, Iptables}
use deepin_network_proxy.Iptables.Chain.{
  Chain, ChainError, command_failed, nil_chain, Done, clear_rules, create_child, del_child,
}

-- `Chain`, with its links.
pub record Node : Type 0 where
  pub chain : Chain
  pub parent : Option ℕ
  pub children : GoMap Bytes ℕ

-- The default chains of each table.
abbrev pub table_sl : List (Bytes × List Bytes)
table_sl =
    (codes "raw", codes "PREROUTING" ∷ codes "OUTPUT" ∷ [])
    ∷ (
      codes "mangle",
      codes "PREROUTING"
          ∷ codes "INPUT"
          ∷ codes "FORWARD"
          ∷ codes "OUTPUT"
          ∷ codes "POSTROUTING"
          ∷ [],
    )
    ∷ (codes "nat", codes "PREROUTING" ∷ codes "OUTPUT" ∷ codes "POSTROUTING" ∷ [])
    ∷ (codes "filter", codes "INPUT" ∷ codes "FORWARD" ∷ codes "OUTPUT" ∷ [])
    ∷ []

-- `Manager`, with each table as the map of its chains.
abbrev pub Tables : Type 0
Tables = GoMap Bytes (GoMap Bytes ℕ)

abbrev pub chains_of : Bytes → Tables → GoMap Bytes ℕ
chains_of table ts = elim (lookup table ts) [ none ↦ [] | some m ↦ m ]

-- `Manager.GetChain`.
unfoldable pub get_chain : Tables → Bytes → Bytes → Option ℕ
get_chain ts table chain = elim (lookup table ts) [ none ↦ none | some m ↦ lookup chain m ]

abbrev pub default_node : Bytes → Bytes → Node
default_node table name = record {
  chain = record { name = name; table = table; cpl_rule_sl = record { array = []; len = 0 } };
  parent = none;
  children = [];
}

-- The inner loop of `Manager.Init`.
unfoldable pub init_chains :
    Bytes → List Bytes → List Node → GoMap Bytes ℕ → List Node × GoMap Bytes ℕ
init_chains table [] heap m = (heap, m)
init_chains table (name ∷ names) heap m =
    init_chains table names (heap ++ default_node table name ∷ []) (insert name (length heap) m)

-- `Manager.Init`: new tables, and new chains for them.
unfoldable pub init_tables : List (Bytes × List Bytes) → List Node → Tables → List Node × Tables
init_tables [] heap ts = (heap, ts)
init_tables ((table, names) ∷ rest) heap ts =
    let (heap', m) = init_chains table names heap [] in init_tables rest heap' (insert table m ts)

-- `Chain.GetRulesCount` and `Chain.GetChildrenCount`, in Removal's terms of one node.
unfoldable pub get_rules_count : Node → ℕ
get_rules_count n = n.chain.cpl_rule_sl.len

unfoldable pub get_children_count : Node → ℕ
get_children_count n = length n.children

-- The loop of `Chain.DelChild`: the name that the child is entered under.
unfoldable pub child_name : ℕ → GoMap Bytes ℕ → Option Bytes
child_name p [] = none
child_name p ((name, q) ∷ m) = if nat_eq q p then some name else child_name p m

abbrev pub Outcome : Type 0
Outcome = Result ChainError (Unit {0})

module _ (K : Iptables) (spare : ℕ → List CompleteRule) where
  pub record World : Type 0 where
    pub heap : List Node
    pub tables : Tables
    pub kernel : K.Kernel

  -- A method of one chain, called through the pointer to it.
  unfoldable pub on_chain : (Chain → K.Kernel → Done K spare) → ℕ → World → Outcome × World
  on_chain op p w = elim (get_elem? w.heap p) [
    | none ↦ (err nil_chain, w)
    | some n ↦
        let (r, c, k) = op n.chain w.kernel in
        (r, record w { heap = set w.heap p (record n { chain = c }); kernel = k })
  ]

  -- `Chain.CreateChild`.
  unfoldable pub create_child_at :
      ℕ → Bytes → ℕ → CompleteRule → World → Result ChainError ℕ × World
  create_child_at p name index r w = elim (get_elem? w.heap p) [
    | none ↦ (err nil_chain, w)
    | some n ↦
        let (made, c, k) = create_child K spare n.chain name index r w.kernel in
        let place = length w.heap in
        elim made [
          | err e ↦ (err e, record w { heap = set w.heap p (record n { chain = c }); kernel = k })
          | ok child ↦ (
            ok place,
            record {
              heap =
                  set w.heap p (record n { chain = c; children = insert name place n.children })
                  ++ record { chain = child; parent = some p; children = [] } ∷ [];
              tables = insert c.table (insert name place (chains_of c.table w.tables)) w.tables;
              kernel = k;
            },
          )
        ]
  ]

  -- `Chain.DelChild`, called on the chain `q`. A child entered under the empty name is not found.
  unfoldable pub del_child_at : ℕ → ℕ → World → Outcome × World
  del_child_at q p w = elim (get_elem? w.heap q) [
    | none ↦ (err nil_chain, w)
    | some m ↦ elim (child_name p m.children) [
      | none ↦ (ok tt, w)
      | some key ↦
          let w' = record w {
            heap = set w.heap q (record m { children = delete key m.children });
          } in
          elim (get_elem? w.heap p) [
            | none ↦ (err nil_chain, w')
            | some n ↦
                if key == []
                then (ok tt, w')
                else on_chain (λ c k. del_child K spare c n.chain.name k) q w'
          ]
    ]
  ]

  -- The step of `Chain.Remove` that takes the chain out of its parent.
  unfoldable pub detach : ℕ → World → Outcome × World
  detach p w = elim (get_elem? w.heap p) [
    | none ↦ (err nil_chain, w)
    | some n ↦ elim n.parent [ none ↦ (ok tt, w) | some q ↦ del_child_at q p w ]
  ]

  -- Its last step.
  unfoldable pub run_removes : Chain → K.Kernel → Done K spare
  run_removes c k = elim (K.run c.table removes c.name k) [
    | none ↦ (err command_failed, c, k)
    | some k' ↦ (ok tt, c, k')
  ]

  -- The loop of `Chain.Clear`: an error of a child's removal is passed over. `none` is no fuel.
  unfoldable pub remove_all : (ℕ → World → Option (Outcome × World)) → List ℕ → World → Option World
  remove_all rec [] w = some w
  remove_all rec (p ∷ ps) w = elim (rec p w) [ none ↦ none | some (_, w') ↦ remove_all rec ps w' ]

  -- `Chain.Clear`, where `rec` is `Chain.Remove`.
  unfoldable pub clear_with :
      (ℕ → World → Option (Outcome × World)) → ℕ → World → Option (Outcome × World)
  clear_with rec p w = elim (get_elem? w.heap p) [
    | none ↦ some (err nil_chain, w)
    | some n ↦ elim (remove_all rec (map (λ (e : Bytes × ℕ). e.1) n.children) w) [
      | none ↦ none
      | some w' ↦ some (on_chain (clear_rules K spare) p w')
    ]
  ]

  -- `Chain.Remove`.
  unfoldable pub remove : ℕ → ℕ → World → Option (Outcome × World)
  remove zero p w = none
  remove (suc fuel) p w =
      let (r, w1) = detach p w in
      elim r [
        | err e ↦ some (err e, w1)
        | ok _ ↦ elim (clear_with (remove fuel) p w1) [
          | none ↦ none
          | some (r2, w2) ↦ elim r2 [
            | err e ↦ some (err e, w2)
            | ok _ ↦ some (on_chain run_removes p w2)
          ]
        ]
      ]

  -- The fuel of the whole tree: more than the chains that the heap holds.
  unfoldable pub remove_chain : ℕ → World → Option (Outcome × World)
  remove_chain p w = remove (suc (length w.heap)) p w

  -- `Chain.Clear` of a chain, with its children.
  unfoldable pub clear : ℕ → World → Option (Outcome × World)
  clear p w = clear_with (remove (suc (length w.heap))) p w
