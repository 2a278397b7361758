-- ===== src/Tproxy/Handlers/Close.antt =====
-- What the manager's map holds, and which handlers were closed.
use deepin_network_proxy.Tproxy.Handlers.{
  none_proto, http, socks4, socks5_tcp, socks5_udp, ProtoTyp, build_proto, proto_string, proto_Eq,
  proto_eq, proto_eq_iff, HandlerKey, key_Eq, key_eq, key_eq_iff, HandlerMgr, base_map, handler_at,
  add_handler, close_base_handler,
}
use deepin_network_proxy.Prelude.{
  ℕ, ◌≡◌, refl, sym, ap, ap₂, ◌∙◌, inl, inr, true, false, ◌&&◌, Option, none, some, List, [], ◌∷◌,
  ◌++◌, arith, if◌then◌else◌, Bool-cases, Option-cases, nat_Eq, list_Eq, ◌==◌, GoMap, lookup,
  insert, delete, lookup-insert, lookup-delete,
}

-- Every protocol is built again from its name.
pub build_proto-proto_string : (typ : ProtoTyp) → build_proto (proto_string typ) ≡ (typ, false)
unfolding build_proto proto_string
build_proto-proto_string none_proto = refl
build_proto-proto_string http = refl
build_proto-proto_string socks4 = refl
build_proto-proto_string socks5_tcp = refl
build_proto-proto_string socks5_udp = refl

abbrev with_base : HandlerMgr → ProtoTyp → GoMap HandlerKey ℕ → List ℕ → HandlerMgr
with_base m typ b closed = record m { handler_map = insert typ b m.handler_map; closed = closed }

base_map_with :
    (m : HandlerMgr) (typ typ' : ProtoTyp) (b : GoMap HandlerKey ℕ) (closed : List ℕ)
    → base_map (with_base m typ b closed) typ' ≡ (if typ == typ' then b else base_map m typ')
base_map_with m typ typ' b closed =
    ap (λ (o : Option (GoMap HandlerKey ℕ)). elim o [ none ↦ [] | some x ↦ x ])
      (lookup-insert typ typ' b m.handler_map)
    ∙ (elim (Bool-cases (proto_eq typ typ')) [ inl t ↦ rw t refl | inr f ↦ rw f refl ])

unchanged_at :
    (m : HandlerMgr) (typ typ' : ProtoTyp) (key key' : HandlerKey) (o : Option ℕ)
    → handler_at m typ key ≡ o
    → handler_at m typ' key' ≡ (if typ == typ' && key == key' then o else handler_at m typ' key')
unchanged_at m typ typ' key key' o h = elim (Bool-cases (proto_eq typ typ' && key_eq key key')) [
  | inr f ↦ rw f refl
  | inl t ↦
      let (a, b) = both t in
      rw t (
        ap₂ (λ x y. handler_at m x y) (sym ((proto_eq_iff typ typ').0 a))
          (sym ((key_eq_iff key key').0 b))
        ∙ h)
]
  where
    both :
        (proto_eq typ typ' && key_eq key key') ≡ true
        → (proto_eq typ typ' ≡ true) × (key_eq key key' ≡ true)
    both t = ground arith

-- `CloseBaseHandler` closes the handler at the key, if there is one, takes it out, and leaves every
-- other in its place.
pub close_base_handler_lem :
    (m : HandlerMgr) (typ typ' : ProtoTyp) (key key' : HandlerKey)
    → (handler_at (close_base_handler m typ key) typ' key'
        ≡ (if typ == typ' && key == key' then none else handler_at m typ' key'))
      × ((close_base_handler m typ key).closed
          ≡ (elim (handler_at m typ key) [ none ↦ m.closed | some base ↦ m.closed ++ base ∷ [] ]))
unfolding close_base_handler
close_base_handler_lem m typ typ' key key' = elim (Option-cases (handler_at m typ key)) [
  | inl free ↦ rw (close_base_handler, free) (unchanged_at m typ typ' key key' none free, refl)
  | inr (base, taken) ↦
      rw (close_base_handler, taken)
        (
          ap (lookup key')
                (base_map_with m typ typ' (delete key (base_map m typ)) (m.closed ++ base ∷ []))
              ∙ ground (
                arith,
                proto_eq_iff typ typ',
                key_eq_iff key key',
                lookup-delete key key' (base_map m typ),
              ),
          refl,
        )
]

-- `AddHandler` puts the handler at its key if the key is free, and changes nothing else.
pub add_handler_lem :
    (m : HandlerMgr) (typ typ' : ProtoTyp) (key key' : HandlerKey) (base : ℕ)
    → (handler_at (add_handler m typ key base) typ' key' ≡ (
        if typ == typ' && key == key'
        then (elim (handler_at m typ key) [ none ↦ some base | some old ↦ some old ])
        else handler_at m typ' key'))
      × ((add_handler m typ key base).closed ≡ m.closed)
unfolding add_handler
add_handler_lem m typ typ' key key' base = elim (Option-cases (handler_at m typ key)) [
  | inr (old, taken) ↦
      rw (add_handler, taken)
        (rw⁻¹ taken (unchanged_at m typ typ' key key' (handler_at m typ key) refl), refl)
  | inl free ↦
      rw (add_handler, free)
        (
          ap (lookup key') (base_map_with m typ typ' (insert key base (base_map m typ)) m.closed)
              ∙ ground (
                arith,
                proto_eq_iff typ typ',
                key_eq_iff key key',
                lookup-insert key key' base (base_map m typ),
              ),
          refl,
        )
]
