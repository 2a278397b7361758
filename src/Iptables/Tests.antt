-- ===== src/Iptables/Tests.antt =====
-- A chain of the mangle table, with a kernel where every command succeeds.
use mathlib.Core.Option.{none-ne-some}
use deepin_network_proxy.Com.Slices.{Slice, visible, mega_exist}
use deepin_network_proxy.Iptables.Obedient.{
  Machine, Machine, Machine, obeyed, ran, obedient, no_spare,
}
use deepin_network_proxy.Iptables.Rules.{CompleteRule, rule_Eq, rule_string, base_string}
use deepin_network_proxy.Iptables.Kernel.{deletes, inserts, creates}
use deepin_network_proxy.Iptables.Chain.{Chain, exist_rule, append_rule, insert_rule, del_rule}
use deepin_network_proxy.Iptables.Chain.Mirror.{
  Mirrors, Keeps, append_rule-Mirrors, del_rule-Mirrors, insert_rule-Mirrors, insert_rule_diverges,
}
use deepin_network_proxy.Iptables.Table.{
  World, Outcome, table_sl, init_tables, create_child_at, remove_chain,
}
use deepin_network_proxy.Iptables.Table.Shape.{IsTree}
use deepin_network_proxy.Iptables.Table.Removal.{Deletes, remove_chain_ends}
use deepin_network_proxy.Iptables.Table.Child.{Entered, init_tables-IsTree, create_child_at-IsTree}
use deepin_network_proxy.Prelude.{
  length, join_spaces, ◌≡◌, refl, ◌≢◌, false, some, [], ◌∷◌, arith, codes, nat_Eq, list_Eq, ok,
}

abbrev accept : CompleteRule
accept = record { action = codes "ACCEPT"; base_sl = []; extends_sl = [] }

abbrev mark : CompleteRule
mark = record {
  action = codes "MARK";
  base_sl = record { negated = false; match_name = codes "s"; param = codes "10.0.0.1" } ∷ [];
  extends_sl = [];
}

mark_text : rule_string mark ≡ codes "-j MARK -s 10.0.0.1"
unfolding rule_string join_spaces base_string
mark_text = refl

abbrev output : Chain
output = record {
  name = codes "OUTPUT";
  table = codes "mangle";
  cpl_rule_sl = record { array = accept ∷ []; len = 1 };
}

abbrev start : Machine
start = record {
  rules = λ table chain. accept ∷ [];
  chains = (codes "mangle", codes "OUTPUT") ∷ [];
}

output-Mirrors : Mirrors obedient no_spare output start
output-Mirrors = record { slice = omega arith; same = refl }

append_rule-Mirrors_example :
    Keeps obedient no_spare (append_rule obedient no_spare output mark start)
append_rule-Mirrors_example = append_rule-Mirrors obedient no_spare output mark start output-Mirrors

del_rule-Mirrors_example : Keeps obedient no_spare (del_rule obedient no_spare output accept start)
del_rule-Mirrors_example = del_rule-Mirrors obedient no_spare output accept start output-Mirrors

insert_rule-Mirrors_example :
    Keeps obedient no_spare (insert_rule obedient no_spare output 1 mark start)
insert_rule-Mirrors_example = insert_rule-Mirrors obedient no_spare output mark start output-Mirrors

insert_rule_diverges_example :
    (s : Slice CompleteRule) × (insert_rule obedient no_spare output 0 mark start ≡ (
      ok tt,
      record output { cpl_rule_sl = s },
      ran (codes "mangle") (inserts 1 mark) (codes "OUTPUT") start,
    ))
    × ((ran (codes "mangle") (inserts 1 mark) (codes "OUTPUT") start).rules
          (codes "mangle")
          (codes "OUTPUT")
        ≡ mark ∷ accept ∷ [])
    × (visible s
        ≢ (ran (codes "mangle") (inserts 1 mark) (codes "OUTPUT") start).rules
            (codes "mangle")
            (codes "OUTPUT"))
unfolding exist_rule mega_exist ran obeyed
insert_rule_diverges_example =
    insert_rule_diverges obedient no_spare output 0 mark start
      (ran (codes "mangle") (inserts 1 mark) (codes "OUTPUT") start) output-Mirrors (omega arith)
      refl refl

abbrev jump : CompleteRule
jump = record { action = codes "Main"; base_sl = []; extends_sl = [] }

abbrev made : Machine
made = ran (codes "mangle") creates (codes "Main") start

abbrev jumped : Machine
jumped = ran (codes "mangle") (inserts 2 jump) (codes "OUTPUT") made

abbrev cut : Machine
cut = ran (codes "mangle") (deletes jump) (codes "OUTPUT") jumped

-- The chains of `Manager.Init`, in a kernel without rules.
abbrev fresh : World obedient no_spare
fresh =
    let (heap, tables) = init_tables table_sl [] [] in
    record {
      heap = heap;
      tables = tables;
      kernel = record { rules = λ table chain. []; chains = [] };
    }

-- A child of the chain OUTPUT of mangle, which is the sixth chain of the heap.
abbrev with_child : World obedient no_spare
with_child = (create_child_at obedient no_spare 5 (codes "Main") 0 jump fresh).1

fresh-IsTree : IsTree fresh.heap
fresh-IsTree =
    init_tables-IsTree table_sl [] [] (record { behind = λ p n e. absurd (none-ne-some n e) })

create_child_at-IsTree_example :
    IsTree with_child.heap
    × Entered obedient no_spare 5
        (codes "Main")
        (create_child_at obedient no_spare 5 (codes "Main") 0 jump fresh).0
        with_child.heap
create_child_at-IsTree_example =
    create_child_at-IsTree obedient no_spare 5 (codes "Main") 0 jump fresh fresh-IsTree

remove_chain_ends_example :
    (r : Outcome) × (w' : World obedient no_spare) × (remove_chain obedient no_spare 13 with_child
      ≡ some (r, w'))
    × Deletes obedient no_spare 13 r w'
    × IsTree w'.heap
    × (length w'.heap ≡ length with_child.heap)
remove_chain_ends_example =
    remove_chain_ends obedient no_spare 13 with_child
      (create_child_at-IsTree obedient no_spare 5 (codes "Main") 0 jump fresh fresh-IsTree).0
