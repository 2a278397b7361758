-- ===== src/Com/Socket/Options.antt =====
-- SetSockOptTrn, SetConnOptTrn and CloseBlockListener of com/utils.go: the options of a socket, and the files
-- that are open. What the kernel answers to a call is a parameter.
use deepin_network_proxy.Prelude.{
  ℕ, ◌+◌, ◌-◌, Bool, true, false, ◌||◌, List, [], ◌∷◌, ◌++◌, nat_eq, if◌then◌else◌, Bytes, nat_Eq,
  list_Eq, Result, ok, err,
}

-- The calls, with the numbers of Linux: the type of a socket is read, an option of a level is set to 1,
-- a socket is made not to block, `File` duplicates it, `net.Listen` opens one, it is closed.
pub data OptCall : Type 0 where
  gets_type : OptCall
  sets : ℕ → ℕ → OptCall
  sets_nonblock : OptCall
  duplicates : OptCall
  listens : Bytes → ℕ → OptCall
  gets_conn : OptCall
  closes : OptCall

pub data OptError : Type 0 where
  refused : OptCall → OptError
  wrong_type wrong_conn wrong_listener : OptError

-- The sockets that listen, the duplicates of `File` that are open, and the calls made.
pub record Fds : Type 0 where
  pub listeners : ℕ
  pub files : ℕ
  pub calls : List OptCall

abbrev pub Act : Type 0 → Type 0
Act A = Fds → Result OptError A × Fds

abbrev pub continue :
    {A B : Type 0} → Result OptError A × Fds → (A → Act B) → Result OptError B × Fds
continue (ok a, s) f = f a s
continue (err e, s) f = (err e, s)

infixl 5 ◌>>=◌ ◌>>◌
abbrev pub ◌>>=◌ : {A B : Type 0} → Act A → (A → Act B) → Act B
◌>>=◌ m f s = continue (m s) f

abbrev pub ◌>>◌ : {B : Type 0} → Act (Unit {0}) → Act B → Act B
m >> k = m >>= λ _. k

abbrev pub require : Bool → OptError → Act (Unit {0})
require true e s = (ok tt, s)
require false e s = (err e, s)

abbrev pub modify : (Fds → Fds) → Act (Unit {0})
modify f s = (ok tt, f s)

-- `net.Conn`, by its type.
pub data ConnKind : Type 0 where
  udp_conn tcp_conn other_conn : ConnKind

abbrev pub has_file : ConnKind → Bool
has_file udp_conn = true
has_file tcp_conn = true
has_file other_conn = false

-- SOCK_STREAM and SOCK_DGRAM.
abbrev pub sock_stream : ℕ
sock_stream = 1

abbrev pub sock_dgram : ℕ
sock_dgram = 2

-- SOL_SOCKET with SO_REUSEADDR, SOL_IP with IP_TRANSPARENT and with IP_RECVORIGDSTADDR.
abbrev pub reuse_addr : OptCall
reuse_addr = sets 1 2

abbrev pub ip_transparent : OptCall
ip_transparent = sets 0 19

abbrev pub recv_orig_dst : OptCall
recv_orig_dst = sets 0 20

module _ (allows : OptCall → Bool) where
  -- A call that may be refused.
  abbrev pub ask : OptCall → Act (Unit {0})
  ask c s =
      let s' : Fds = record s { calls = s.calls ++ c ∷ [] } in
      if allows c then (ok tt, s') else (err (refused c), s')

  -- `SetSockOptTrn` on a socket of the type `typ`.
  unfoldable pub set_sock_opt_trn : ℕ → Act (Unit {0})
  set_sock_opt_trn typ = do
    ask gets_type
    require (nat_eq typ sock_stream || nat_eq typ sock_dgram) wrong_type
    ask reuse_addr
    ask ip_transparent
    ask recv_orig_dst

  -- `File`: a duplicate, to be closed by the caller.
  unfoldable pub file : Act (Unit {0})
  file = do ask duplicates; modify (λ s. record s { files = s.files + 1 })

  -- `SetConnOptTrn`: nothing closes the duplicate.
  unfoldable pub set_conn_opt_trn : ConnKind → ℕ → Act (Unit {0})
  set_conn_opt_trn kind typ = do require (has_file kind) wrong_conn; file; set_sock_opt_trn typ

  abbrev pub passed_over : Act (Unit {0}) → Act (Unit {0})
  passed_over m s = (ok tt, (m s).1)

  -- `CloseBlockListener`: an error of `Control` is overwritten by that of `Close`.
  unfoldable pub close_block_listener : Bool → Act (Unit {0})
  close_block_listener is_tcp = do
    require is_tcp wrong_listener
    ask gets_conn
    passed_over (ask sets_nonblock)
    ask closes
    modify (λ s. record s { listeners = s.listeners - 1 })
