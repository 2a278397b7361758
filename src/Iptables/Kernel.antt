-- ===== src/Iptables/Kernel.antt =====
-- The command `iptables`, as new_iptables/ uses it: an interface, since the program is not part of the
-- repository. A command that succeeds does what its manual page says of it.
use deepin_network_proxy.Com.Slices.Insert.{insert_at}
use deepin_network_proxy.Com.Slices.Delete.{remove_first}
use deepin_network_proxy.Iptables.Rules.{CompleteRule, rule_Eq}
use deepin_network_proxy.Prelude.{
  ℕ, ◌+◌, ◌≡◌, Option, some, List, [], ◌∷◌, ◌++◌, Bytes, nat_Eq, list_Eq,
}

-- What stands behind the operation and the chain's name; `insert` has the position, from 1 on.
pub data Command : Type 0 where
  appends deletes : CompleteRule → Command
  inserts : ℕ → CompleteRule → Command
  creates flushes removes : Command

pub record Iptables : Type 1 where
  pub Kernel : Type 0
  -- The rules of a table's chain.
  pub rules : Kernel → Bytes → Bytes → List CompleteRule
  pub run : Bytes → Command → Bytes → Kernel → Option Kernel
  pub run_appends :
      (table chain : Bytes) (r : CompleteRule) {k k' : Kernel}
      → run table (appends r) chain k ≡ some k'
      → rules k' table chain ≡ rules k table chain ++ r ∷ []
  pub run_inserts :
      (table chain : Bytes) (i : ℕ) (r : CompleteRule) {k k' : Kernel}
      → run table (inserts (i + 1) r) chain k ≡ some k'
      → rules k' table chain ≡ insert_at i r (rules k table chain)
  pub run_deletes :
      (table chain : Bytes) (r : CompleteRule) {k k' : Kernel}
      → run table (deletes r) chain k ≡ some k'
      → rules k' table chain ≡ remove_first r (rules k table chain)
  pub run_flushes :
      (table chain : Bytes) {k k' : Kernel}
      → run table flushes chain k ≡ some k'
      → rules k' table chain ≡ []
  -- A new chain is empty, as a chain that does not exist is.
  pub run_creates :
      (table chain other : Bytes) {k k' : Kernel}
      → run table creates chain k ≡ some k'
      → rules k' table other ≡ rules k table other
