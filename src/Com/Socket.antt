-- ===== src/Com/Socket.antt =====
-- com/utils.go: the address that a captured packet was sent to, and sockets that speak for another
-- address. The numbers of Linux are parameters, and what the kernel answers to a call as well.
pub mod Control
pub mod Options
mod Dial
use deepin_network_proxy.Prelude.{
  ℕ, ◌+◌, Bool, true, false, not, Option, none, some, List, [], ◌∷◌, ◌++◌, nat_eq, if◌then◌else◌,
  set, Bytes, codes, Eq, nat_Eq, list_Eq, ◌==◌, Result, ok, err,
}
use deepin_network_proxy.Com.Address.{Addr, tcp_addr, udp_addr, domain_addr, to4, to16}

-- `syscall.Sockaddr`: the port, and the bytes of the address.
pub data SockAddr : Type 0 where
  inet4 inet6 : ℕ → Bytes → SockAddr

pub data SocketError : Type 0 where
  buf_nil bad_message type_missing addr_typ ip_incorrect types_differ refused : SocketError

-- `convertAddrToSockAddr`: the port 0 becomes 80.
unfoldable pub sock_addr_of : Bytes → ℕ → Result SocketError SockAddr
sock_addr_of ip port =
    let port' = if nat_eq port 0 then 80 else port in
    elim (to4 ip) [
      | some four ↦ ok (inet4 port' four)
      | none ↦ elim (to16 ip) [ some sixteen ↦ ok (inet6 port' sixteen) | none ↦ err ip_incorrect ]
    ]

unfoldable pub convert_addr_to_sock_addr : Addr → Result SocketError SockAddr
convert_addr_to_sock_addr (tcp_addr ip port) = sock_addr_of ip port
convert_addr_to_sock_addr (udp_addr ip port) = sock_addr_of ip port
convert_addr_to_sock_addr (domain_addr network domain port) = err addr_typ

-- The kernel's numbers.
pub record Numbers : Type 0 where
  pub af_inet : ℕ
  pub af_inet6 : ℕ
  pub sock_stream : ℕ
  pub sock_dgram : ℕ

-- The calls of `MegaDial`: to open a socket of a domain and a type, to make it transparent, to bind it,
-- to connect it, and to make a connection of it.
pub data Call : Type 0 where
  sockets : ℕ → ℕ → Call
  set_transparent : ℕ → Call
  binds connects : ℕ → SockAddr → Call
  makes_conn : ℕ → Call

-- The calls made, and the file that the connection stands on, or an error.
abbrev pub Dialled : Type 0
Dialled = List Call × Result SocketError ℕ

-- The address's bytes. `none`: a field that is not there, which panics.
unfoldable pub ip_of : Addr → Option Bytes
ip_of (tcp_addr ip port) = some ip
ip_of (udp_addr ip port) = some ip
ip_of (domain_addr network domain port) = none

unfoldable pub same_type : Addr → Addr → Bool
same_type (tcp_addr i p) (tcp_addr j q) = true
same_type (udp_addr i p) (udp_addr j q) = true
same_type (domain_addr n d p) (domain_addr m e q) = true
same_type _ _ = false

module _ (N : Numbers) where
  -- The domain of the socket.
  unfoldable pub domain_of : Bytes → Option ℕ
  domain_of ip = elim (to4 ip) [
    | some _ ↦ some N.af_inet
    | none ↦ elim (to16 ip) [ some _ ↦ some N.af_inet6 | none ↦ none ]
  ]

  unfoldable pub typ_of : Bytes → ℕ
  typ_of network =
      if network == codes "tcp"
      then N.sock_stream
      else if network == codes "udp"
      then N.sock_dgram
      else 0

  -- `fd` is the file that the kernel gives, and `allows` whether a call succeeds.
  module _ (fd : ℕ) (allows : Call → Bool) where
    abbrev pub try : Call → List Call → (List Call → Dialled) → Dialled
    try c made k = if allows c then k (made ++ c ∷ []) else (made ++ c ∷ [], err refused)

    abbrev pub given : Result SocketError SockAddr → List Call → (SockAddr → Dialled) → Dialled
    given (err e) made k = (made, err e)
    given (ok a) made k = k a

    -- The steps of `MegaDial`, each with those behind it.
    abbrev pub make_conn : List Call → Dialled
    make_conn made = try (makes_conn fd) made (λ made. (made, ok fd))

    abbrev pub connect : SockAddr → List Call → Dialled
    connect r made = try (connects fd r) made make_conn

    abbrev pub bind : SockAddr → SockAddr → List Call → Dialled
    bind l r made = try (binds fd l) made (connect r)

    abbrev pub with_remote : Addr → List Call → SockAddr → Dialled
    with_remote r_addr made l = given (convert_addr_to_sock_addr r_addr) made (λ r. bind l r made)

    abbrev pub with_local : Addr → Addr → List Call → Dialled
    with_local l_addr r_addr made =
        given (convert_addr_to_sock_addr l_addr) made (with_remote r_addr made)

    abbrev pub prepare : Addr → Addr → List Call → Dialled
    prepare l_addr r_addr made = try (set_transparent fd) made (with_local l_addr r_addr)

    -- `MegaDial` behind the choice of the domain.
    unfoldable pub dial_from : ℕ → ℕ → Addr → Addr → Dialled
    dial_from domain typ l_addr r_addr = try (sockets domain typ) [] (prepare l_addr r_addr)

    -- `MegaDial`. `none` is a panic.
    unfoldable pub mega_dial : Bytes → Addr → Addr → Option Dialled
    mega_dial network l_addr r_addr =
        if not (same_type l_addr r_addr) then some ([], err types_differ) else elim (ip_of l_addr) [
          | none ↦ none
          | some ip ↦ elim (domain_of ip) [
            | none ↦ some ([], err ip_incorrect)
            | some domain ↦ some (dial_from domain (typ_of network) l_addr r_addr)
          ]
        ]
