-- ===== src/Dbus/Service/Leaks.antt =====
-- What `DelRule` takes back of `AppendRule`, and the flag for UDP.
use deepin_network_proxy.Prelude.{
  ℕ, ◌≡◌, refl, sym, ap, subst, ◌∙◌, inl, inr, Bool, true, false, none, some, List, [], ◌∷◌, ◌++◌,
  Bytes, codes, nat_Eq, list_Eq, ==-cases, ok,
}
use deepin_network_proxy.Com.Slices.{mega_del, visible, mega_exist, append_slice}
use deepin_network_proxy.Com.Slices.Windows.{append_slice-IsSlice, visible-append_slice}
use deepin_network_proxy.Com.Slices.Delete.{remove_first, mega_del_lem}
use deepin_network_proxy.Iptables.Rules.{CompleteRule, rule_Eq}
use deepin_network_proxy.Iptables.Kernel.{appends, deletes, Iptables}
use deepin_network_proxy.Iptables.Chain.{Chain, exist_rule, append_rule, del_rule}
use deepin_network_proxy.Iptables.Chain.Mirror.{Mirrors}
use deepin_network_proxy.Iptables.Chain.Child.{remove_first-snoc}
use deepin_network_proxy.Tproxy.Handlers.{build_proto}
use deepin_network_proxy.Dbus.Service.{System, Service}
use deepin_network_proxy.Dbus.Service.Calls.{Caller, proto_typ, start_proxy}

module _ (K : Iptables) (spare : ℕ → List CompleteRule) where
  -- The chain behind a successful `AppendRule`.
  abbrev pub appended : Chain → CompleteRule → Chain
  appended c r = record c { cpl_rule_sl = (append_slice spare c.cpl_rule_sl (r ∷ [])).0 }

  append_rule_runs :
      (c : Chain) (r : CompleteRule) (k k1 : K.Kernel)
      → exist_rule c r ≡ false
      → K.run c.table (appends r) c.name k ≡ some k1
      → append_rule K spare c r k ≡ (ok tt, appended c r, k1)
  unfolding append_rule
  append_rule_runs c r k k1 absent put = rw (append_rule, absent, put) refl

  -- `DelRule` undoes `AppendRule` of a rule that was not there, where the kernel takes both commands:
  -- chain and kernel list the rules that they listed at first.
  pub del_rule-append_rule :
      (c : Chain) (r : CompleteRule) (k k1 k2 : K.Kernel)
      → Mirrors K spare c k
      → exist_rule c r ≡ false
      → K.run c.table (appends r) c.name k ≡ some k1
      → K.run c.table (deletes r) c.name k1 ≡ some k2
      → (c1 : Chain) × (c2 : Chain) × (append_rule K spare c r k ≡ (ok tt, c1, k1))
        × (del_rule K spare c1 r k1 ≡ (ok tt, c2, k2))
        × (visible c2.cpl_rule_sl ≡ visible c.cpl_rule_sl)
        × (K.rules k2 c.table c.name ≡ K.rules k c.table c.name)
  unfolding exist_rule del_rule
  del_rule-append_rule c r k k1 k2 m absent put cut =
      let s = (append_slice spare c.cpl_rule_sl (r ∷ [])).0 in
      let w = append_slice-IsSlice spare c.cpl_rule_sl (r ∷ []) m.slice in
      let shown = visible-append_slice spare c.cpl_rule_sl (r ∷ []) m.slice in
      let (there, gone) = remove_first-snoc (visible c.cpl_rule_sl) r absent in
      let known : mega_exist (visible s) r ≡ true = ap (λ xs. mega_exist xs r) shown ∙ there in
      let (left, flag, _) = mega_del_lem spare s r w in
      (
        appended c r,
        record c { cpl_rule_sl = (mega_del spare s r).0 },
        append_rule_runs c r k k1 absent put,
        rw (del_rule, known, cut) (rw (flag ∙ known) refl),
        left ∙ ap (remove_first r) shown ∙ gone,
        K.run_deletes c.table c.name r cut
            ∙ ap (remove_first r)
                (K.run_appends c.table c.name r put ∙ ap (λ rs. rs ++ r ∷ []) (sym m.same))
            ∙ gone
            ∙ m.same,
      )

proto_typ-sock5 : proto_typ (codes "sock5") ≡ none
unfolding proto_typ build_proto
proto_typ-sock5 = refl

-- `StartProxy` does the same with the flag for UDP as without it: the protocol that it asks for is
-- none that `BuildProto` knows.
pub start_proxy_udp :
    (S : System) (who : Caller) (dns : Bool) (proto name : Bytes) (s : Service S)
    → start_proxy S who dns proto name true s ≡ start_proxy S who dns proto name false s
unfolding start_proxy
start_proxy_udp S who dns proto name s = elim (==-cases proto (codes "sock5")) [
  | inr (_, other) ↦ rw other refl
  | inl (same, _) ↦
      subst (λ p. start_proxy S who dns p name true s ≡ start_proxy S who dns p name false s)
        (sym same) (rw proto_typ-sock5 refl)
]
