-- ===== src/Tproxy/Relay.antt =====
-- tproxy/handlerPriv.go: what a handler keeps, its reads and writes, and the two copies of `Communicate`
-- round by round, as Go's io.Copy makes them, up to the closing of the connections. The connections are those of Tproxy.Conn.
pub mod Copies
pub mod Goroutines
pub mod Delivery
use deepin_network_proxy.Prelude.{
  ℕ, zero, suc, ◌+◌, ◌-◌, ◌*◌, ◌/◌, ◌%◌, ◌^◌, ◌≤◌, ◌<◌, ◌≡◌, refl, sym, ap, ap₂, subst, ◌∙◌, ◌≢◌,
  ◌↔◌, ◌⊎◌, inl, inr, Bool, true, false, not, ◌&&◌, ◌||◌, Option, none, some, List, [], ◌∷◌, ◌++◌,
  map, append-nil, append_assoc, arith, ltb, leb, nat_eq, if◌then◌else◌, leb→le, le→leb, nat_eq_iff,
  nat_eq_refl, nat_eq-false, ltb-false, leb-false, Bool-cases, Option-cases, length, get_elem?,
  take, drop, length-append, join_spaces, shell_words, split_on, split_on-append, split_on_without,
  IsWithout, all_words, IsPlain, shell_words-join_spaces, shell_words_plain, set, length-set,
  get_elem?-set, get_elem?-lt, get_elem?-snoc, get_elem?-append_length, get_elem?-append_lt,
  lengths, take-append-drop, length-take_le, length-drop, take-length, take_all, drop-length,
  cut_inside, cut_behind, take-append_length, drop-append_length, Bytes, codes, Eq, nat_Eq, list_Eq,
  ◌==◌, list_eq, list_eq_iff, ==_refl, ==_ne, ==-cases, GoMap, lookup, insert, delete,
  lookup-insert, lookup-delete, bit_and, bit_or, itoa, itoa-injective, one_le_two_pow, some_inj,
  bit_or_comm, bit_or_beside, bit_or_ones, bit_and_ones, bit_and_above, Result, ok, err, ◌>>=◌,
  Result-cases,
}
use deepin_network_proxy.Com.Address.{Addr}
use deepin_network_proxy.Config.{Proxy}
use deepin_network_proxy.Define.{Scope}
use deepin_network_proxy.Tproxy.Conn.{Conn, TunnelError, read, write}
use deepin_network_proxy.Tproxy.Handlers.{
  ProtoTyp, HandlerKey, HandlerMgr, add_handler, close_base_handler, handler_at, Stage, copying,
  checked, marked, finished, Session, Side, remote_side, local_side, step,
}

-- `handlerPrv`: a connection may be nil, and so may `parent`, here the handler's number.
pub record HandlerPrv : Type 0 where
  pub typ : ProtoTyp
  pub scope : Scope
  pub proxy : Proxy
  pub l_addr : Addr
  pub r_addr : Addr
  pub l_conn : Option Conn
  pub r_conn : Option Conn
  pub parent : Option ℕ
  pub key : HandlerKey
  pub deleted : Bool

-- `createHandlerPrv`.
unfoldable pub create_handler_prv :
    ProtoTyp → Scope → HandlerKey → Proxy → Addr → Addr → Option Conn → HandlerPrv
create_handler_prv typ scope key proxy l_addr r_addr l_conn = record {
  typ = typ;
  scope = scope;
  proxy = proxy;
  l_addr = l_addr;
  r_addr = r_addr;
  l_conn = l_conn;
  r_conn = none;
  parent = none;
  key = key;
  deleted = false;
}

-- `saveParent`.
unfoldable pub save_parent : HandlerPrv → ℕ → HandlerPrv
save_parent h base = record h { parent = some base }

-- `AddMgr`. `none` is a parent that is nil, which the code enters all the same.
unfoldable pub add_mgr : HandlerPrv → HandlerMgr → Option HandlerMgr
add_mgr h m = elim h.parent [ none ↦ none | some base ↦ some (add_handler m h.typ h.key base) ]

-- `Remove`.
unfoldable pub remove : HandlerPrv → HandlerMgr → HandlerMgr
remove h m = close_base_handler m h.typ h.key

-- A connection that has been closed gives no byte and takes none.
abbrev pub close_conn : Conn → Conn
close_conn c = record c { incoming = []; writes_left = 0 }

abbrev pub close_unless_nil : Option Conn → Option Conn
close_unless_nil none = none
close_unless_nil (some c) = some (close_conn c)

-- `Close`.
unfoldable pub close : HandlerPrv → HandlerPrv
close h = record h { l_conn = close_unless_nil h.l_conn; r_conn = close_unless_nil h.r_conn }

pub data PrvError : Type 0 where
  remote_nil : PrvError
  of_conn : TunnelError → PrvError

abbrev of_talk : {A : Type 0} → Result TunnelError A → Result PrvError A
of_talk (ok a) = ok a
of_talk (err e) = err (of_conn e)

-- A call on one connection: the connection nil is an error.
abbrev on_conn :
    {A : Type 0}
    → Option Conn
    → (Conn → Result TunnelError A × Conn)
    → Result PrvError A × Option Conn
on_conn none talk = (err remote_nil, none)
on_conn (some c) talk = (of_talk (talk c).0, some (talk c).1)

-- `WriteRemote`, `WriteLocal`, `ReadRemote` and `ReadLocal`; a read is given the length of its buffer.
unfoldable pub write_remote : HandlerPrv → Bytes → Result PrvError (Unit {0}) × HandlerPrv
write_remote h buf = let (r, c) = on_conn h.r_conn (write buf) in (r, record h { r_conn = c })

unfoldable pub write_local : HandlerPrv → Bytes → Result PrvError (Unit {0}) × HandlerPrv
write_local h buf = let (r, c) = on_conn h.l_conn (write buf) in (r, record h { l_conn = c })

unfoldable pub read_remote : HandlerPrv → ℕ → Result PrvError Bytes × HandlerPrv
read_remote h n = let (r, c) = on_conn h.r_conn (read n) in (r, record h { r_conn = c })

unfoldable pub read_local : HandlerPrv → ℕ → Result PrvError Bytes × HandlerPrv
read_local h n = let (r, c) = on_conn h.l_conn (read n) in (r, record h { l_conn = c })

-- A round of the loop of `io.Copy(dst, src)`, and whether the copy goes on behind it.
pub record Round : Type 0 where
  pub goes_on : Bool
  pub dst : Conn
  pub src : Conn

abbrev pub round_written : Result TunnelError (Unit {0}) × Conn → Conn → Round
round_written (ok _, dst) src = record { goes_on = true; dst = dst; src = src }
round_written (err e, dst) src = record { goes_on = false; dst = dst; src = src }

-- At the end of the stream or on an error the copy ends; no bytes are not written.
abbrev pub round_read : Result TunnelError Bytes × Conn → Conn → Round
round_read (err e, src) dst = record { goes_on = false; dst = dst; src = src }
round_read (ok [], src) dst = record { goes_on = true; dst = dst; src = src }
round_read (ok (b ∷ bs), src) dst = round_written (write (b ∷ bs) dst) src

-- With a buffer of `size` bytes.
unfoldable pub copy_round : ℕ → Conn → Conn → Round
copy_round size dst src = round_read (read size src) dst

-- Go's buffer has 32 KB.
abbrev pub buffer_size : ℕ
buffer_size = 32768

-- `Communicate`: how far the two goroutines are, and the handler's connections.
pub record Carrying : Type 0 where
  pub session : Session
  pub l_conn : Conn
  pub r_conn : Conn

abbrev pub is_copying : Stage → Bool
is_copying copying = true
is_copying _ = false

abbrev pub stage_of : Session → Side → Stage
stage_of s remote_side = s.to_remote
stage_of s local_side = s.to_local

-- `Remove` closes the handler that the manager still has.
abbrev pub closes : Stage → Option ℕ → Bool
closes marked (some base) = true
closes _ _ = false

abbrev pub shut : Bool → Conn → Conn
shut closed c = if closed then close_conn c else c

module _ (typ : ProtoTyp) (key : HandlerKey) where
  -- A step of a goroutine behind its copy: `isDeleted`, `setDeleted` and `Remove`, which closes both
  -- connections.
  unfoldable pub wind_up : Carrying → Side → Carrying
  wind_up s side =
      let closed = closes (stage_of s.session side) (handler_at s.session.mgr typ key) in
      record {
        session = step typ key s.session side;
        l_conn = shut closed s.l_conn;
        r_conn = shut closed s.r_conn;
      }

  -- A goroutine behind a round of its copy.
  abbrev pub copied : Carrying → Side → Bool → Session
  copied s side goes_on = if goes_on then s.session else step typ key s.session side

  -- A step of one goroutine: a round of its copy, or what stands behind the copy.
  unfoldable pub carry : Carrying → Side → Carrying
  carry s remote_side =
      let r = copy_round buffer_size s.r_conn s.l_conn in
      if is_copying s.session.to_remote
      then record { session = copied s remote_side r.goes_on; l_conn = r.src; r_conn = r.dst }
      else wind_up s remote_side
  carry s local_side =
      let r = copy_round buffer_size s.l_conn s.r_conn in
      if is_copying s.session.to_local
      then record { session = copied s local_side r.goes_on; l_conn = r.dst; r_conn = r.src }
      else wind_up s local_side

  -- `Communicate` under a schedule of its two goroutines.
  unfoldable pub relay : Carrying → List Side → Carrying
  relay s [] = s
  relay s (side ∷ sides) = relay (carry s side) sides
