-- ===== src/Dbus/Capture/Counts.antt =====
-- How often a number stands among the handlers of tproxy/BaseHandler.go and the goroutines.
use deepin_network_proxy.Prelude.{
  ℕ, zero, suc, ◌+◌, ◌≤◌, ◌≡◌, refl, sym, ap, ◌∙◌, inl, inr, Bool, true, false, none, some, List,
  [], ◌∷◌, ◌++◌, arith, nat_eq, Bool-cases, Option-cases, nat_Eq, list_Eq, ◌==◌, ==_refl, GoMap,
  lookup, insert, delete, lookup-insert, lookup-delete, some_inj,
}
use mathlib.Core.Option.{none-ne-some}
use deepin_network_proxy.Tproxy.Handlers.{
  ProtoTyp, proto_Eq, HandlerKey, key_Eq, HandlerMgr, base_map, handler_at, handlers, add_handler,
  close_base_handler, close_typ_handler,
}
use deepin_network_proxy.Dbus.Capture.{Waiting, take_out}

abbrev pub one_if : Bool → ℕ
one_if true = 1
one_if false = 0

-- How often a number stands in a list.
abbrev pub count : ℕ → List ℕ → ℕ
count x [] = 0
count x (y ∷ ys) = one_if (nat_eq x y) + count x ys

abbrev pub bases : List Waiting → List ℕ
bases [] = []
bases (w ∷ ws) = w.conn.base ∷ bases ws

pub count-append : (x : ℕ) (ys zs : List ℕ) → count x (ys ++ zs) ≡ count x ys + count x zs
count-append x [] zs = omega arith
count-append x (y ∷ ys) zs = omega (arith, count-append x ys zs)

pub bases-append : (vs ws : List Waiting) → bases (vs ++ ws) ≡ bases vs ++ bases ws
bases-append [] ws = refl
bases-append (v ∷ vs) ws = ap (◌∷◌ v.conn.base) (bases-append vs ws)

pub take_out_lem :
    (x n : ℕ) (ws : List Waiting) {v : Waiting} {vs : List Waiting}
    → take_out n ws ≡ some (v, vs)
    → count x (bases ws) ≡ one_if (nat_eq x v.conn.base) + count x (bases vs)
take_out_lem x n [] e = absurd (none-ne-some _ e)
take_out_lem x zero (w ∷ ws) e =
    ap (λ (q : Waiting × List Waiting). one_if (nat_eq x q.0.conn.base) + count x (bases q.1))
      (some_inj e)
take_out_lem x (suc n) (w ∷ ws) {v = v'} {vs = vs'} e = elim (Option-cases (take_out n ws)) [
  | inl gone ↦ let e' : none ≡ some _ = rw gone at e in absurd (none-ne-some _ e')
  | inr ((v, vs), found) ↦
      let e' : some (v, w ∷ vs) ≡ some (v', vs') = rw found at e in
      let ih = take_out_lem x n ws found in
      let here : count x (bases (w ∷ ws))
          ≡ one_if (nat_eq x v.conn.base) + count x (bases (w ∷ vs)) =
        omega (arith, ih) in
      here
      ∙ ap (λ (q : Waiting × List Waiting). one_if (nat_eq x q.0.conn.base) + count x (bases q.1))
          (some_inj e')
]

pub count-insert :
    (x base : ℕ) (key : HandlerKey) (b : GoMap HandlerKey ℕ)
    → lookup key b ≡ none
    → count x (handlers (insert key base b)) ≡ one_if (nat_eq x base) + count x (handlers b)
unfolding insert lookup
count-insert x base key [] e = refl
count-insert x base key ((k, old) ∷ b) e = elim (Bool-cases (k == key)) [
  | inl here ↦ let e' : some old ≡ none = rw here at e in absurd (none-ne-some old (sym e'))
  | inr other ↦
      let e' : lookup key b ≡ none = rw other at e in
      rw other (omega (arith, count-insert x base key b e'))
]

pub count-delete :
    (x : ℕ) (key : HandlerKey) (b : GoMap HandlerKey ℕ)
    → count x (handlers (delete key b)) ≤ count x (handlers b)
unfolding delete
count-delete x key [] = omega arith
count-delete x key ((k, old) ∷ b) = elim (Bool-cases (k == key)) [
  | inl here ↦ rw here (omega (arith, count-delete x key b))
  | inr other ↦ rw other (omega (arith, count-delete x key b))
]

-- The one that is found is taken out.
pub count-delete_found :
    (x base : ℕ) (key : HandlerKey) (b : GoMap HandlerKey ℕ)
    → lookup key b ≡ some base
    → one_if (nat_eq x base) + count x (handlers (delete key b)) ≤ count x (handlers b)
unfolding delete lookup
count-delete_found x base key [] e = absurd (none-ne-some _ e)
count-delete_found x base key ((k, old) ∷ b) e = elim (Bool-cases (k == key)) [
  | inl here ↦
      let e' : some old ≡ some base = rw here at e in
      let same : old ≡ base = some_inj e' in rw (here, same) (omega (arith, count-delete x key b))
  | inr other ↦
      let e' : lookup key b ≡ some base = rw other at e in
      rw other (omega (arith, count-delete_found x base key b e'))
]

pub base_map-insert :
    (m : HandlerMgr) (typ : ProtoTyp) (b : GoMap HandlerKey ℕ) (closed : List ℕ)
    → base_map (record m { handler_map = insert typ b m.handler_map; closed = closed }) typ ≡ b
base_map-insert m typ b closed =
    rw (base_map, lookup-insert typ typ b m.handler_map) (rw (==_refl typ) refl)

pub base_map-delete :
    (m : HandlerMgr) (typ : ProtoTyp) (closed : List ℕ)
    → base_map (record m { handler_map = delete typ m.handler_map; closed = closed }) typ ≡ []
base_map-delete m typ closed =
    rw (base_map, lookup-delete typ typ m.handler_map) (rw (==_refl typ) refl)

-- How often a handler is entered under the protocol, or has been closed.
abbrev pub held : ℕ → ProtoTyp → HandlerMgr → ℕ
held x typ m = count x m.closed + count x (handlers (base_map m typ))

pub add_handler-held :
    (x : ℕ) (typ : ProtoTyp) (key : HandlerKey) (base : ℕ) (m : HandlerMgr)
    → held x typ (add_handler m typ key base) ≤ one_if (nat_eq x base) + held x typ m
unfolding add_handler
add_handler-held x typ key base m = elim (Option-cases (handler_at m typ key)) [
  | inr (old, there) ↦ rw (add_handler, there) (omega arith)
  | inl free ↦
      let e = base_map-insert m typ (insert key base (base_map m typ)) m.closed in
      rw (add_handler, free) (rw e (omega (arith, count-insert x base key (base_map m typ) free)))
]

pub close_base_handler-held :
    (x : ℕ) (typ : ProtoTyp) (key : HandlerKey) (m : HandlerMgr)
    → held x typ (close_base_handler m typ key) ≤ held x typ m
unfolding close_base_handler
close_base_handler-held x typ key m = elim (Option-cases (handler_at m typ key)) [
  | inl gone ↦ rw (close_base_handler, gone) (omega arith)
  | inr (base, there) ↦
      let e = base_map-insert m typ (delete key (base_map m typ)) (m.closed ++ base ∷ []) in
      rw (close_base_handler, there)
        (rw e (
          omega (
            arith,
            count-append x m.closed (base ∷ []),
            count-delete_found x base key (base_map m typ) there,
          )))
]

pub close_typ_handler-held :
    (x : ℕ) (typ : ProtoTyp) (m : HandlerMgr) → held x typ (close_typ_handler m typ) ≤ held x typ m
unfolding close_typ_handler
close_typ_handler-held x typ m = elim (Option-cases (lookup typ m.handler_map)) [
  | inl gone ↦ rw (close_typ_handler, gone) (omega arith)
  | inr (b, there) ↦
      let e = base_map-delete m typ (m.closed ++ handlers b) in
      let at : base_map m typ ≡ b = rw (base_map, there) refl in
      let same : count x (handlers (base_map m typ)) ≡ count x (handlers b) =
        ap (λ (q : GoMap HandlerKey ℕ). count x (handlers q)) at in
      rw (close_typ_handler, there)
        (rw e (omega (arith, same, count-append x m.closed (handlers b))))
]
