-- ===== src/Dbus/Service/Ends.antt =====
-- Every method of a scope's proxy comes to an end: no removal of chains runs out of fuel.
pub mod Calls
use deepin_network_proxy.Prelude.{
  ℕ, ◌-◌, ◌≡◌, ap, Bool, true, false, Option, none, some, if◌then◌else◌, set, Bytes, Eq, nat_Eq,
  list_Eq, Result,
}
use deepin_network_proxy.Cgroups.Manager.{Cgroups}
use deepin_network_proxy.Cgroups.{CgroupError}
use deepin_network_proxy.Iptables.Chain.{Chain, Done}
use deepin_network_proxy.Iptables.Table.{on_chain, create_child_at, remove_chain}
use deepin_network_proxy.Iptables.Table.Shape.{IsTree, on_chain-Steady}
use deepin_network_proxy.Iptables.Table.Removal.{remove_chain_ends}
use deepin_network_proxy.Iptables.Table.Child.{create_child_at-IsTree}
use deepin_network_proxy.Dbus.Service.{
  on_option, CompleteRule, System, Service, ProxyPrv, Act, Ran, done, failed, panicked, Fault,
  ◌>>=◌, ◌>>◌, after, pure, fail, panic, get, modify, modify_mgr, ignore, passed_over, when, deref,
  checked, on_world, on_cgroups, run_line, on_shell, the_controller,
}
use deepin_network_proxy.Dbus.Service.Manager.{remove_at}

module _ {S : System} where
  -- A method that has come to its end, the chains a tree again.
  abbrev pub Fine : {A : Type 0} → Option (Ran A × Service S) → Type 0
  Fine none = ⊥
  Fine (some (r, s)) = IsTree s.world.heap

  -- It ends whatever the system does, where the chains are a tree.
  pub record Ends {A : Type 0} (m : Act S A) : Type 0 where
    pub fine : (s : Service S) → IsTree s.world.heap → Fine (m s)

  after-Fine :
      {A B : Type 0} (x : Option (Ran A × Service S)) (f : A → Act S B)
      → Fine x
      → ((a : A) → Ends (f a))
      → Fine (after x f)
  after-Fine none f h k = absurd h
  after-Fine (some (done a, s)) f h k = (k a).fine s h
  after-Fine (some (failed e, s)) f h k = h
  after-Fine (some (panicked, s)) f h k = h

  pub Ends->>= :
      {A B : Type 0} (m : Act S A) (f : A → Act S B)
      → Ends m
      → ((a : A) → Ends (f a))
      → Ends (m >>= f)
  Ends->>= m f h k = record { fine = λ s t. after-Fine (m s) f (h.fine s t) k }

  passed_over-Fine : (x : Option (Ran (Unit {0}) × Service S)) → Fine x → Fine (passed_over x)
  passed_over-Fine none h = h
  passed_over-Fine (some (r, s)) h = h

  pub Ends-ignore : (m : Act S (Unit {0})) → Ends m → Ends (ignore m)
  Ends-ignore m h = record { fine = λ s t. passed_over-Fine (m s) (h.fine s t) }

  pub Ends-if :
      {A : Type 0} (b : Bool) (m k : Act S A) → Ends m → Ends k → Ends (if b then m else k)
  Ends-if true m k h h' = h
  Ends-if false m k h h' = h'

  pub Ends-when : (b : Bool) (m : Act S (Unit {0})) → Ends m → Ends (when b m)
  Ends-when true m h = h
  Ends-when false m h = record { fine = λ s t. t }

  pub Ends-pure : {A : Type 0} (a : A) → Ends (pure a)
  Ends-pure a = record { fine = λ s t. t }

  pub Ends-fail : {A : Type 0} (e : Fault) → Ends {A = A} (fail e)
  Ends-fail e = record { fine = λ s t. t }

  pub Ends-panic : {A : Type 0} → Ends {A = A} panic
  Ends-panic = record { fine = λ s t. t }

  pub Ends-get : Ends get
  Ends-get = record { fine = λ s t. t }

  -- What touches no chain.
  pub Ends-modify :
      (f : Service S → Service S) → ((s : Service S) → (f s).world ≡ s.world) → Ends (modify f)
  Ends-modify f h = record { fine = λ s t. rw (h s) t }

  pub Ends-modify_mgr : (f : ProxyPrv → ProxyPrv) → Ends (modify_mgr f)
  Ends-modify_mgr f = record { fine = λ s t. t }

  pub Ends-deref : {A : Type 0} (x : Option A) → Ends (deref x)
  Ends-deref none = Ends-panic
  Ends-deref (some a) = Ends-pure a

  pub Ends-on_option :
      {A B : Type 0} (x : Option A) (m : Act S B) (f : A → Act S B)
      → Ends m
      → ((a : A) → Ends (f a))
      → Ends (on_option x m f)
  Ends-on_option none m f h k = h
  Ends-on_option (some a) m f h k = k a

  pub Ends-checked : {A : Type 0} (x : Option A) (e : Fault) → Ends (checked x e)
  Ends-checked none e = Ends-fail e
  Ends-checked (some a) e = Ends-pure a

  pub Ends-on_cgroups :
      {A : Type 0} (op : Cgroups → Result CgroupError A × Cgroups) → Ends (on_cgroups op)
  Ends-on_cgroups op = record { fine = λ s t. t }

  pub Ends-run_line : (line : Bytes) → Ends (run_line line)
  Ends-run_line line = record { fine = λ s t. t }

  pub Ends-on_shell : {A : Type 0} (op : S.Shell → A × S.Shell) → Ends (on_shell op)
  Ends-on_shell op = record { fine = λ s t. t }

  pub Ends-the_controller : Ends the_controller
  Ends-the_controller = Ends->>= get _ Ends-get (λ s. Ends-if _ _ _ (Ends-checked _ _) Ends-panic)

  -- One chain's own method, and the making of a child.
  pub Ends-on_chain :
      (op : Chain → S.net.Kernel → Done S.net S.spare_rules) (p : ℕ)
      → Ends (on_world (on_chain S.net S.spare_rules op p))
  Ends-on_chain op p = record {
    fine = λ s t. (on_chain-Steady S.net S.spare_rules op p s.world t).tree;
  }

  pub Ends-create_child_at :
      (p : ℕ) (name : Bytes) (index : ℕ) (r : CompleteRule)
      → Ends (on_world (create_child_at S.net S.spare_rules p name index r))
  Ends-create_child_at p name index r = record {
    fine = λ s t. (create_child_at-IsTree S.net S.spare_rules p name index r s.world t).0;
  }

  pub Ends-remove_at : (p : ℕ) → Ends (remove_at S p)
  unfolding remove_at
  Ends-remove_at p = record {
    fine = λ s t.
        let (r, w, e, deleted, shape, size) = remove_chain_ends S.net S.spare_rules p s.world t in
        rw (remove_at, e) shape;
  }

  pub ruleset ends = (
    Ends->>=, Ends-ignore, Ends-if, Ends-when, Ends-pure, Ends-fail, Ends-panic, Ends-get,
    Ends-modify_mgr, Ends-deref, Ends-checked, Ends-on_option, Ends-on_cgroups, Ends-run_line,
    Ends-on_shell, Ends-the_controller, Ends-on_chain, Ends-create_child_at, Ends-remove_at,
  )
