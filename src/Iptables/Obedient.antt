-- ===== src/Iptables/Obedient.antt =====
-- A kernel where every command succeeds, for tests.
use deepin_network_proxy.Prelude.{
  ℕ, ◌+◌, ◌-◌, ◌≡◌, refl, sym, ap, ◌∙◌, ◌&&◌, some, List, [], ◌∷◌, ◌++◌, arith, if◌then◌else◌,
  Bytes, nat_Eq, list_Eq, ◌==◌, ==_refl, some_inj,
}
use deepin_network_proxy.Com.Slices.Insert.{insert_at}
use deepin_network_proxy.Com.Slices.Delete.{remove_first}
use deepin_network_proxy.Iptables.Rules.{CompleteRule, rule_Eq}
use deepin_network_proxy.Iptables.Kernel.{
  Command, appends, deletes, inserts, creates, flushes, removes, Iptables,
}

-- The rules of each table's chains, and the chains that have been created and not deleted.
pub record Machine : Type 0 where
  pub rules : Bytes → Bytes → List CompleteRule
  pub chains : List (Bytes × Bytes)

unfoldable pub obeyed : Command → List CompleteRule → List CompleteRule
obeyed (appends r) rs = rs ++ r ∷ []
obeyed (deletes r) rs = remove_first r rs
obeyed (inserts i r) rs = insert_at (i - 1) r rs
obeyed creates rs = rs
obeyed flushes rs = []
obeyed removes rs = []

-- One entry of the chain goes.
unfoldable pub without_chain : Bytes → Bytes → List (Bytes × Bytes) → List (Bytes × Bytes)
without_chain table chain [] = []
without_chain table chain ((t, c) ∷ cs) =
    let rest = without_chain table chain cs in
    if t == table && c == chain then cs else (t, c) ∷ rest

unfoldable pub chains_after : Bytes → Command → Bytes → List (Bytes × Bytes) → List (Bytes × Bytes)
chains_after table creates chain cs = cs ++ (table, chain) ∷ []
chains_after table removes chain cs = without_chain table chain cs
chains_after table _ chain cs = cs

unfoldable pub ran : Bytes → Command → Bytes → Machine → Machine
ran table cmd chain k = record {
  rules = λ t c. if t == table && c == chain then obeyed cmd (k.rules t c) else k.rules t c;
  chains = chains_after table cmd chain k.chains;
}

pub ran_here :
    (table chain : Bytes) (cmd : Command) (k : Machine) {k' : Machine}
    → some (ran table cmd chain k) ≡ some k'
    → k'.rules table chain ≡ obeyed cmd (k.rules table chain)
unfolding ran
ran_here table chain cmd k e =
    ap (λ (f : Machine). f.rules table chain) (sym (some_inj e))
    ∙ rw (==_refl table, ==_refl chain) refl

pub ran_creates :
    (table chain t c : Bytes) (k : Machine) → (ran table creates chain k).rules t c ≡ k.rules t c
unfolding ran obeyed
ran_creates table chain t c k = ground arith

pub ran_inserts :
    (table chain : Bytes) (i : ℕ) (r : CompleteRule) (k : Machine) {k' : Machine}
    → some (ran table (inserts (i + 1) r) chain k) ≡ some k'
    → k'.rules table chain ≡ insert_at i r (k.rules table chain)
unfolding obeyed
ran_inserts table chain i r k e =
    ran_here table chain (inserts (i + 1) r) k e
    ∙ ap (λ (n : ℕ). insert_at n r (k.rules table chain))
        (let e' : i + 1 - 1 ≡ i = omega arith in e')

pub ran_appends :
    (table chain : Bytes) (r : CompleteRule) (k : Machine) {k' : Machine}
    → some (ran table (appends r) chain k) ≡ some k'
    → k'.rules table chain ≡ k.rules table chain ++ r ∷ []
unfolding obeyed
ran_appends table chain r k e = ran_here table chain (appends r) k e

pub ran_deletes :
    (table chain : Bytes) (r : CompleteRule) (k : Machine) {k' : Machine}
    → some (ran table (deletes r) chain k) ≡ some k'
    → k'.rules table chain ≡ remove_first r (k.rules table chain)
unfolding obeyed
ran_deletes table chain r k e = ran_here table chain (deletes r) k e

pub ran_flushes :
    (table chain : Bytes) (k : Machine) {k' : Machine}
    → some (ran table flushes chain k) ≡ some k'
    → k'.rules table chain ≡ []
unfolding obeyed
ran_flushes table chain k e = ran_here table chain flushes k e

abbrev pub obedient : Iptables
obedient = record {
  Kernel = Machine;
  rules = λ k table chain. k.rules table chain;
  run = λ table cmd chain k. some (ran table cmd chain k);
  run_appends = λ table chain r {k} e. ran_appends table chain r k e;
  run_inserts = λ table chain i r {k} e. ran_inserts table chain i r k e;
  run_deletes = λ table chain r {k} e. ran_deletes table chain r k e;
  run_flushes = λ table chain {k} e. ran_flushes table chain k e;
  run_creates = λ table chain other {k} e.
      ap (λ (f : Machine). f.rules table other) (sym (some_inj e))
      ∙ ran_creates table chain table other k;
}

abbrev pub no_spare : ℕ → List CompleteRule
no_spare n = []
