-- ===== src/Iptables/Chain.antt =====
-- new_iptables/iptables.go: the operations of one chain. A run of the command gives a new kernel, or
-- fails; a failed operation comes back with the chain and the kernel as they are then.
pub mod Mirror
pub mod Child
use deepin_network_proxy.Com.Slices.{
  Slice, SliceError, visible, append_slice, mega_insert, mega_del, mega_exist,
}
use deepin_network_proxy.Iptables.Rules.{CompleteRule, rule_Eq, rule_string}
use deepin_network_proxy.Iptables.Kernel.{
  Command, appends, deletes, inserts, creates, flushes, removes, Iptables,
}
use deepin_network_proxy.Prelude.{
  ℕ, suc, ◌+◌, ◌-◌, Bool, true, false, not, ◌&&◌, ◌||◌, Option, none, some, List, [], ◌∷◌, ◌++◌,
  map, arith, leb, nat_eq, if◌then◌else◌, get_elem?, Bytes, codes, nat_Eq, list_Eq, Result, ok, err,
}

-- `Chain`, without the links to its parent and its children; `table` is the table's name.
pub record Chain : Type 0 where
  pub name : Bytes
  pub table : Bytes
  pub cpl_rule_sl : Slice CompleteRule

-- `nil_chain` stands for a panic: a method called on a nil chain.
pub data ChainError : Type 0 where
  command_failed index_invalid nil_chain : ChainError

-- `Chain.indexValid`.
unfoldable pub index_valid : Chain → ℕ → Bool
index_valid c index = leb index c.cpl_rule_sl.len

-- `Chain.ExistRule`.
unfoldable pub exist_rule : Chain → CompleteRule → Bool
exist_rule c r = mega_exist (visible c.cpl_rule_sl) r

-- `Chain.GetRuleByIndex`.
unfoldable pub get_rule_by_index : Chain → ℕ → Option CompleteRule
get_rule_by_index c index =
    if leb c.cpl_rule_sl.len index then none else get_elem? (visible c.cpl_rule_sl) index

abbrev pub is_prefix : Bytes → Bytes → Bool
is_prefix [] s = true
is_prefix (c ∷ cs) [] = false
is_prefix (c ∷ cs) (d ∷ ds) = nat_eq c d && is_prefix cs ds

-- `strings.Contains`.
unfoldable pub contains : Bytes → Bytes → Bool
contains [] sub = is_prefix sub []
contains (c ∷ cs) sub = is_prefix sub (c ∷ cs) || contains cs sub

-- The search of `Chain.GetCreateChildIndex`.
unfoldable pub find_jump : Bytes → List CompleteRule → Option ℕ
find_jump name [] = none
find_jump name (r ∷ rs) =
    let rest = find_jump name rs in
    if contains (rule_string r) (codes "-j " ++ name)
    then some 0
    else elim rest [ none ↦ none | some i ↦ some (suc i) ]

-- `Chain.GetCreateChildIndex`; `none` stands for its 0 with false.
unfoldable pub get_create_child_index : Chain → Bytes → Option ℕ
get_create_child_index c name = find_jump name (visible c.cpl_rule_sl)

module _ (K : Iptables) (spare : ℕ → List CompleteRule) where
  abbrev pub Done : Type 0
  Done = Result ChainError (Unit {0}) × Chain × K.Kernel

  -- `Chain.AppendRule`.
  unfoldable pub append_rule : Chain → CompleteRule → K.Kernel → Done
  append_rule c r k =
      if exist_rule c r then (ok tt, c, k) else elim (K.run c.table (appends r) c.name k) [
        | none ↦ (err command_failed, c, k)
        | some k' ↦
            (ok tt, record c { cpl_rule_sl = (append_slice spare c.cpl_rule_sl (r ∷ [])).0 }, k')
      ]

  -- What `Chain.InsertRule` does with the result of `MegaInsert`.
  abbrev pub save_inserted : Chain → K.Kernel → Result SliceError (Slice CompleteRule × Bool) → Done
  save_inserted c k (err _) = (err index_invalid, c, k)
  save_inserted c k (ok (s, update)) =
      if update then (ok tt, record c { cpl_rule_sl = s }, k) else (ok tt, c, k)

  -- `Chain.InsertRule`.
  unfoldable pub insert_rule : Chain → ℕ → CompleteRule → K.Kernel → Done
  insert_rule c index r k =
      if not (index_valid c index)
      then (err index_invalid, c, k)
      else if exist_rule c r
      then (ok tt, c, k)
      else elim (K.run c.table (inserts (index + 1) r) c.name k) [
        | none ↦ (err command_failed, c, k)
        | some k' ↦ save_inserted c k' (mega_insert spare c.cpl_rule_sl r index)
      ]

  -- `Chain.AddRule`.
  unfoldable pub add_rule : Chain → CompleteRule → K.Kernel → Done
  add_rule c r k = insert_rule c 0 r k

  -- `Chain.DelRule`.
  unfoldable pub del_rule : Chain → CompleteRule → K.Kernel → Done
  del_rule c r k =
      if not (exist_rule c r) then (ok tt, c, k) else elim (K.run c.table (deletes r) c.name k) [
        | none ↦ (err command_failed, c, k)
        | some k' ↦
            let (s, update, _) = mega_del spare c.cpl_rule_sl r in
            if update then (ok tt, record c { cpl_rule_sl = s }, k') else (ok tt, c, k')
      ]

  -- `Chain.DelRuleByIndex`.
  unfoldable pub del_rule_by_index : Chain → ℕ → K.Kernel → Done
  del_rule_by_index c index k = elim (get_rule_by_index c index) [
    | none ↦ (err index_invalid, c, k)
    | some r ↦ del_rule c r k
  ]

  -- `Chain.Clear` of a chain without children.
  unfoldable pub clear_rules : Chain → K.Kernel → Done
  clear_rules c k = elim (K.run c.table flushes c.name k) [
    | none ↦ (err command_failed, c, k)
    | some k' ↦ (ok tt, record c { cpl_rule_sl = record { array = []; len = 0 } }, k')
  ]

  -- `Chain.CreateChild`, up to the maps that it enters the child in: the child if all went well, with
  -- this chain and the kernel.
  unfoldable pub create_child :
      Chain → Bytes → ℕ → CompleteRule → K.Kernel → Result ChainError Chain × Chain × K.Kernel
  create_child c name index r k =
      let child : Chain = record {
        name = name;
        table = c.table;
        cpl_rule_sl = record { array = []; len = 0 };
      } in
      elim (K.run c.table creates name k) [
        | none ↦ (err command_failed, c, k)
        | some k' ↦
            let (done, c', k2) = insert_rule c index r k' in
            (elim done [ err e ↦ err e | ok _ ↦ ok child ], c', k2)
      ]

  -- `Chain.DelChild`, for a child that is entered in the map of children.
  unfoldable pub del_child : Chain → Bytes → K.Kernel → Done
  del_child c child k = elim (get_create_child_index c child) [
    | none ↦ (ok tt, c, k)
    | some index ↦ del_rule_by_index c index k
  ]
