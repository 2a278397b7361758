-- ===== src/Dbus/Capture/Ends.antt =====
-- How often a handler is closed.
use deepin_network_proxy.Prelude.{
  ℕ, ◌+◌, ◌≤◌, ◌≡◌, ap, subst, ◌∙◌, inl, inr, Bool, true, false, Option, none, some, List, [], ◌∷◌,
  ◌++◌, arith, nat_eq, if◌then◌else◌, Bool-cases, Option-cases, Bytes, nat_Eq, list_Eq, lookup,
}
use deepin_network_proxy.Tproxy.Handlers.{ProtoTyp, proto_Eq, key_Eq, HandlerMgr, new_handler_mgr}
use deepin_network_proxy.Define.{Scope}
use deepin_network_proxy.Dbus.Lru.{Lru}
use deepin_network_proxy.Dbus.Dns.{Dns, ◌>>?◌}
use deepin_network_proxy.Dbus.Capture.{
  Captured, Waiting, key_of, has_handler, Event, arrives, answers, fails, removes, take_out, Hall,
  real_addr, proxy_tcp, answered, step, run,
}
use deepin_network_proxy.Dbus.Capture.Counts.{
  one_if, count, bases, count-append, bases-append, take_out_lem, held, add_handler-held,
  close_base_handler-held, close_typ_handler-held,
}

module _ (D : Lru ℕ) (I : Lru Bytes) (typ : ProtoTyp) where
  -- How often a handler is about: waiting, entered or closed.
  abbrev pub total : ℕ → Hall D I → ℕ
  total x h = held x typ h.mgr + count x (bases h.waiting)

  abbrev pub arrived : ℕ → List Event → ℕ
  arrived x [] = 0
  arrived x (arrives c ∷ es) = one_if (nat_eq x c.base) + arrived x es
  arrived x (answers n good ∷ es) = arrived x es
  arrived x (fails ∷ es) = arrived x es
  arrived x (removes key ∷ es) = arrived x es

  answered-held :
      (x : ℕ) (c : Captured) (good : Bool) (m : HandlerMgr)
      → held x typ (answered D I typ c good m) ≤ one_if (nat_eq x c.base) + held x typ m
  unfolding answered
  answered-held x c true m = add_handler-held x typ (key_of c) c.base m
  answered-held x c false m = omega (arith, count-append x m.closed (c.base ∷ []))

  abbrev AtMost : ℕ → ℕ → Option (Hall D I) → Type 0
  AtMost x n none = Unit {0}
  AtMost x n (some h) = total x h ≤ n

  AtMost-if :
      (x n : ℕ) (b : Bool) (p q : Option (Hall D I))
      → AtMost x n p
      → AtMost x n q
      → AtMost x n (if b then p else q)
  AtMost-if x n true p q t u = t
  AtMost-if x n false p q t u = u

  AtMost-grows : (x m n : ℕ) (o : Option (Hall D I)) → m ≤ n → AtMost x m o → AtMost x n o
  AtMost-grows x m n none h t = tt
  AtMost-grows x m n (some g) h t = omega arith

  AtMost->>? :
      (x m k : ℕ) (o : Option (Hall D I)) (f : Hall D I → Option (Hall D I))
      → AtMost x m o
      → ((g : Hall D I) → AtMost x (total x g + k) (f g))
      → AtMost x (m + k) (o >>? f)
  AtMost->>? x m k none f t u = tt
  AtMost->>? x m k (some g) f t u = AtMost-grows x (total x g + k) (m + k) (f g) (omega arith) (u g)

  arrived-cons :
      (x : ℕ) (e : Event) (es : List Event) → arrived x (e ∷ es) ≡ arrived x (e ∷ []) + arrived x es
  arrived-cons x (arrives c) es = omega arith
  arrived-cons x (answers n good) es = omega arith
  arrived-cons x fails es = omega arith
  arrived-cons x (removes key) es = omega arith

  bases-snoc :
      (x : ℕ) (w : Waiting) (ws : List Waiting)
      → count x (bases (ws ++ w ∷ [])) ≡ count x (bases ws) + one_if (nat_eq x w.conn.base)
  bases-snoc x w ws =
      let parts = count-append x (bases ws) (w.conn.base ∷ []) in
      ap (count x) (bases-append ws (w ∷ [])) ∙ omega (arith, parts)

  proxy_tcp-AtMost :
      (x : ℕ) (h : Hall D I) (c : Captured)
      → AtMost x (total x h + one_if (nat_eq x c.base)) (proxy_tcp D I typ c h)
  unfolding proxy_tcp
  proxy_tcp-AtMost x h c = elim (Option-cases (real_addr D I h.dns c.r_addr)) [
    | inl panics ↦ rw (proxy_tcp, panics) tt
    | inr ((addr, t), found) ↦ elim (Bool-cases (has_handler typ)) [
      | inl there ↦
          let w : Waiting = record { conn = c; real_r_addr = addr } in
          rw (proxy_tcp, found) (rw there (omega (arith, bases-snoc x w h.waiting)))
      | inr nil ↦ rw (proxy_tcp, found) (rw nil tt)
    ]
  ]

  step-AtMost :
      (x : ℕ) (h : Hall D I) (e : Event)
      → AtMost x (total x h + arrived x (e ∷ [])) (step D I typ h e)
  unfolding step
  step-AtMost x h (arrives c) =
      AtMost-if x _ h.accepting _ _
        (AtMost-grows x _ _ (proxy_tcp D I typ c h) (omega arith) (proxy_tcp-AtMost x h c))
        (omega arith)
  step-AtMost x h (answers n good) = elim (Option-cases (take_out n h.waiting)) [
    | inl gone ↦ rw (step, gone) (omega arith)
    | inr ((w, ws), found) ↦
        rw (step, found)
          (omega (arith, take_out_lem x n h.waiting found, answered-held x w.conn good h.mgr))
  ]
  step-AtMost x h fails =
      AtMost-if x _ h.accepting _ _ (omega (arith, close_typ_handler-held x typ h.mgr))
        (omega arith)
  step-AtMost x h (removes key) = omega (arith, close_base_handler-held x typ key h.mgr)

  run-AtMost :
      (x : ℕ) (es : List Event) (h : Hall D I)
      → AtMost x (total x h + arrived x es) (run D I typ h es)
  unfolding run
  run-AtMost x [] h = omega arith
  run-AtMost x (e ∷ es) h =
      AtMost-grows x (total x h + arrived x (e ∷ []) + arrived x es)
        (total x h + arrived x (e ∷ es)) (run D I typ h (e ∷ es))
        (omega (arith, arrived-cons x e es))
        (AtMost->>? x (total x h + arrived x (e ∷ [])) (arrived x es) (step D I typ h e)
          (λ g. run D I typ g es) (step-AtMost x h e) (run-AtMost x es))

  -- A handler is closed no more often than its connection has arrived, in all that `accept`, its
  -- goroutines and the ends of `Communicate` do, in whatever order, where none is open or closed before.
  pub run_closes_once :
      (scope : Scope) (dns : Dns D I) (x : ℕ) (es : List Event) {h : Hall D I}
      → run D I typ
          (record { dns = dns; mgr = new_handler_mgr scope; waiting = []; accepting = true })
          es
        ≡ some h
      → count x h.mgr.closed ≤ arrived x es
  unfolding new_handler_mgr lookup
  run_closes_once scope dns x es {h} e =
      let start : Hall D I = record {
        dns = dns;
        mgr = new_handler_mgr scope;
        waiting = [];
        accepting = true;
      } in
      let bound : total x h ≤ 0 + arrived x es =
        subst (AtMost x (total x start + arrived x es)) e (run-AtMost x es start) in
      omega arith
