-- ===== src/Tproxy/Handlers.antt =====
-- tproxy/BaseHandler.go, and the life of a handler in tproxy/handlerPriv.go. A handler is a number,
-- and `closed` lists the calls of `Close`, in order. The mutex makes each method of the manager one
-- step. Go ranges over a map in an order of its own; here it is the order of the bindings.
pub mod Close
pub mod Communicate
mod Tests
use deepin_network_proxy.Define.{Scope}
use deepin_network_proxy.Prelude.{
  ℕ, ◌+◌, ◌-◌, ◌≡◌, refl, subst, ◌↔◌, Bool, true, false, ◌&&◌, Option, none, some, List, [], ◌∷◌,
  ◌++◌, map, arith, if◌then◌else◌, Bytes, codes, Eq, nat_Eq, list_Eq, ◌==◌, list_eq_iff, ==_refl,
  GoMap, lookup, insert, delete,
}

pub data ProtoTyp : Type 0 where
  none_proto http socks4 socks5_tcp socks5_udp : ProtoTyp

-- `BuildProto`: with the error flag.
unfoldable pub build_proto : Bytes → ProtoTyp × Bool
build_proto proto =
    if proto == codes "no-proxy"
    then (none_proto, false)
    else if proto == codes "http"
    then (http, false)
    else if proto == codes "socks4"
    then (socks4, false)
    else if proto == codes "socks5-tcp"
    then (socks5_tcp, false)
    else if proto == codes "socks5-udp"
    then (socks5_udp, false)
    else (none_proto, true)

-- `ProtoTyp.String`.
unfoldable pub proto_string : ProtoTyp → Bytes
proto_string none_proto = codes "no-proxy"
proto_string http = codes "http"
proto_string socks4 = codes "socks4"
proto_string socks5_tcp = codes "socks5-tcp"
proto_string socks5_udp = codes "socks5-udp"

abbrev pub proto_eq : ProtoTyp → ProtoTyp → Bool
proto_eq none_proto none_proto = true
proto_eq http http = true
proto_eq socks4 socks4 = true
proto_eq socks5_tcp socks5_tcp = true
proto_eq socks5_udp socks5_udp = true
proto_eq _ _ = false

pub proto_eq_iff : (a b : ProtoTyp) → (proto_eq a b ≡ true) ↔ (a ≡ b)
proto_eq_iff none_proto b = ground arith
proto_eq_iff http b = ground arith
proto_eq_iff socks4 b = ground arith
proto_eq_iff socks5_tcp b = ground arith
proto_eq_iff socks5_udp b = ground arith

instance abbrev pub proto_Eq : Eq ProtoTyp
proto_Eq = record { beq = proto_eq; beq_iff = proto_eq_iff }

pub record HandlerKey : Type 0 where
  pub src_addr : Bytes
  pub dst_addr : Bytes

abbrev pub key_eq : HandlerKey → HandlerKey → Bool
key_eq j k = j.src_addr == k.src_addr && j.dst_addr == k.dst_addr

key_parts : (j k : HandlerKey) → j.src_addr ≡ k.src_addr → j.dst_addr ≡ k.dst_addr → j ≡ k
key_parts j k a b = λ i. record { src_addr = a i; dst_addr = b i }

pub key_eq_iff : (j k : HandlerKey) → (key_eq j k ≡ true) ↔ (j ≡ k)
key_eq_iff j k = (
  λ h.
      ground (
        arith,
        list_eq_iff j.src_addr k.src_addr,
        list_eq_iff j.dst_addr k.dst_addr,
        key_parts j k,
      ),
  λ e. subst (λ x. key_eq j x ≡ true) e (rw (==_refl j.src_addr, ==_refl j.dst_addr) refl),
)

instance abbrev pub key_Eq : Eq HandlerKey
key_Eq = record { beq = key_eq; beq_iff = key_eq_iff }

pub record HandlerMgr : Type 0 where
  pub handler_map : GoMap ProtoTyp (GoMap HandlerKey ℕ)
  pub scope : Scope
  pub closed : List ℕ

-- `NewHandlerMgr`.
unfoldable pub new_handler_mgr : Scope → HandlerMgr
new_handler_mgr scope = record { handler_map = []; scope = scope; closed = [] }

-- `mgr.handlerMap[typ]`, where a missing map reads as empty.
abbrev pub base_map : HandlerMgr → ProtoTyp → GoMap HandlerKey ℕ
base_map m typ = elim (lookup typ m.handler_map) [ none ↦ [] | some b ↦ b ]

-- The handler at a protocol and a key.
abbrev pub handler_at : HandlerMgr → ProtoTyp → HandlerKey → Option ℕ
handler_at m typ key = lookup key (base_map m typ)

-- `AddHandler`: a handler that is there already stays.
unfoldable pub add_handler : HandlerMgr → ProtoTyp → HandlerKey → ℕ → HandlerMgr
add_handler m typ key base = elim (handler_at m typ key) [
  | some _ ↦ m
  | none ↦ record m { handler_map = insert typ (insert key base (base_map m typ)) m.handler_map }
]

-- `CloseBaseHandler`.
unfoldable pub close_base_handler : HandlerMgr → ProtoTyp → HandlerKey → HandlerMgr
close_base_handler m typ key = elim (handler_at m typ key) [
  | none ↦ m
  | some base ↦ record m {
    handler_map = insert typ (delete key (base_map m typ)) m.handler_map;
    closed = m.closed ++ base ∷ [];
  }
]

abbrev pub handlers : GoMap HandlerKey ℕ → List ℕ
handlers b = map (λ (e : HandlerKey × ℕ). e.1) b

-- `CloseTypHandler`.
unfoldable pub close_typ_handler : HandlerMgr → ProtoTyp → HandlerMgr
close_typ_handler m typ = elim (lookup typ m.handler_map) [
  | none ↦ m
  | some b ↦ record m { handler_map = delete typ m.handler_map; closed = m.closed ++ handlers b }
]

-- The loop of `CloseAll`.
unfoldable pub close_typs : List ProtoTyp → HandlerMgr → HandlerMgr
close_typs [] m = m
close_typs (typ ∷ typs) m = close_typs typs (close_typ_handler m typ)

-- `CloseAll`.
unfoldable pub close_all : HandlerMgr → HandlerMgr
close_all m = close_typs (map (λ (e : ProtoTyp × GoMap HandlerKey ℕ). e.0) m.handler_map) m

-- How far one of the two goroutines of `Communicate` is: still copying, past `isDeleted`, past
-- `setDeleted`, or at its end.
pub data Stage : Type 0 where
  copying checked marked finished : Stage

pub record Session : Type 0 where
  pub mgr : HandlerMgr
  pub deleted : Bool
  pub to_remote : Stage
  pub to_local : Stage

-- One step of one goroutine: `isDeleted` after the copy, `setDeleted(true)`, `Remove`.
unfoldable pub advance :
    ProtoTyp → HandlerKey → Stage → Bool → HandlerMgr → Stage × Bool × HandlerMgr
advance typ key copying deleted m = (if deleted then finished else checked, deleted, m)
advance typ key checked deleted m = (marked, true, m)
advance typ key marked deleted m = (finished, deleted, close_base_handler m typ key)
advance typ key finished deleted m = (finished, deleted, m)

pub data Side : Type 0 where
  remote_side local_side : Side

unfoldable pub step : ProtoTyp → HandlerKey → Session → Side → Session
step typ key s remote_side =
    let (t, d, m) = advance typ key s.to_remote s.deleted s.mgr in
    record { mgr = m; deleted = d; to_remote = t; to_local = s.to_local }
step typ key s local_side =
    let (t, d, m) = advance typ key s.to_local s.deleted s.mgr in
    record { mgr = m; deleted = d; to_remote = s.to_remote; to_local = t }

-- `Communicate` under a schedule of its two goroutines.
unfoldable pub communicate : ProtoTyp → HandlerKey → Session → List Side → Session
communicate typ key s [] = s
communicate typ key s (side ∷ sides) = communicate typ key (step typ key s side) sides
