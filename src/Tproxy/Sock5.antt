-- ===== src/Tproxy/Sock5.antt =====
-- tproxy/TcpSock5Handler.go and tproxy/UdpSock5Handler.go: how a handler asks a SOCKS5 server for a
-- tunnel. The two functions `Tunnel` are the same text up to the command byte and to what they do
-- with the server's answer, so their common stages stand here once. `dial` and `resolve_udp` stand
-- for `net.DialTimeout`, `net.ResolveUDPAddr` and `net.Dial`, which are the network's.
pub mod Request
pub mod Wire
pub mod Target
pub mod Run
use deepin_network_proxy.Config.{Proxy}
use deepin_network_proxy.Com.Address.{
  Addr, tcp_addr, udp_addr, domain_addr, to4, to16, ipv4, put_uint16, get_uint16,
}
use deepin_network_proxy.Tproxy.Conn.{
  Conn, TunnelError, dial_failed, not_tcp, bad_method, bad_auth, bad_reply, bad_atyp, ip_invalid,
  domain_too_long, resolve_failed, dial_udp_failed, Talk, ◌>>=◌, ◌>>◌, pure, fail, require, write,
  read, read_full, filled, byte_at,
}
use deepin_network_proxy.Prelude.{
  ℕ, ◌+◌, ◌%◌, ◌^◌, Bool, true, false, not, ◌&&◌, ◌||◌, Option, none, some, [], ◌∷◌, ◌++◌, arith,
  ltb, nat_eq, if◌then◌else◌, length, Bytes, nat_Eq, list_Eq, ◌==◌, itoa, Result, ok, err,
}

-- What `Tunnel` leaves: its error, the connection that it dialled, and the handler's `rConn`.
pub record Outcome : Type 0 where
  pub result : Result TunnelError (Unit {0})
  pub dialled : Option Conn
  pub r_conn : Option Conn

-- `handlerPrv.dialProxy`: the address that it dials.
unfoldable pub dial_address : Proxy → Bytes
dial_address p = p.server ++ (b':' ∷ itoa (if nat_eq p.port 0 then 80 else p.port))

abbrev pub outcome : Result TunnelError (Unit {0}) → Conn → Outcome
outcome (ok u) c = record { result = ok u; dialled = some c; r_conn = some c }
outcome (err e) c = record { result = err e; dialled = some c; r_conn = none }

-- Dial the proxy server, then talk to it; only a talk that ends well is saved in the handler.
unfoldable pub on_dialled : (Bytes → Option Conn) → Proxy → Talk (Unit {0}) → Outcome
on_dialled dial p talk = elim (dial (dial_address p)) [
  | none ↦ record { result = err dial_failed; dialled = none; r_conn = none }
  | some c ↦ outcome (talk c).0 (talk c).1
]

-- Where the tunnel is to lead: the port, the address, and the domain if there is one.
pub record Destination : Type 0 where
  pub port : ℕ
  pub ip : Bytes
  pub domain : Bytes

-- The type switch on `handler.rAddr`.
unfoldable pub destination : Addr → Option Destination
destination (tcp_addr ip port) = some (record { port = 0; ip = ip; domain = [] })
destination (domain_addr network domain port) =
    some (record { port = port % 2 ^ 16; ip = ipv4 0 0 0 1; domain = domain })
destination (udp_addr ip port) = none

abbrev pub has_auth : Proxy → Bool
has_auth p = not (p.user_name == []) && not (p.password == [])

-- The hand shake request.
unfoldable pub greeting : Proxy → Bytes
greeting p = if has_auth p then 5 ∷ 2 ∷ 0 ∷ 2 ∷ [] else 5 ∷ 1 ∷ 0 ∷ []

-- The hand shake: the answer is read over the request in the same buffer.
unfoldable pub hand_shake : Proxy → Talk ℕ
hand_shake p = do
  write (greeting p)
  got ← read (length (greeting p))
  let buf = filled got (greeting p)
  require (nat_eq (byte_at buf 0) 5 && (nat_eq (byte_at buf 1) 0 || nat_eq (byte_at buf 1) 2))
      bad_method
  pure (byte_at buf 1)

-- The auth request: `byte(len(s))` wraps.
unfoldable pub auth_request : Proxy → Bytes
auth_request p =
    1 ∷ length p.user_name % 256 ∷ (p.user_name ++ (length p.password % 256 ∷ p.password))

-- `if buf[1] == 2`: the answer to the auth request is read into 32 zeros.
unfoldable pub authenticate : Proxy → ℕ → Talk (Unit {0})
authenticate p method =
    if nat_eq method 2
    then (do
      write (auth_request p)
      got ← read 32
      require (nat_eq (byte_at got 0) 5 || nat_eq (byte_at got 0) 1) bad_auth)
    else pure tt

abbrev pub or_port_80 : ℕ → ℕ
or_port_80 port = if nat_eq port 0 then 80 else port

-- ATYP and DST.ADDR of the connect request.
unfoldable pub address_field : Destination → Result TunnelError Bytes
unfolding to4 to16
address_field d =
    if d.domain == []
    then (if nat_eq (length d.ip) 4
        then ok (1 ∷ d.ip)
        else elim (to16 d.ip) [ none ↦ err ip_invalid | some long ↦ ok (4 ∷ long) ])
    else if ltb 255 (length d.domain)
    then err domain_too_long
    else ok (3 ∷ length d.domain ∷ d.domain)

-- The connect request, with the command 1 for TCP and 3 for UDP.
unfoldable pub connect_request : ℕ → Destination → Result TunnelError Bytes
connect_request command d = elim (address_field d) [
  | err e ↦ err e
  | ok field ↦ ok (5 ∷ command ∷ 0 ∷ (field ++ put_uint16 (or_port_80 d.port)))
]

abbrev pub lift : {A : Type 0} → Result TunnelError A → Talk A
lift r c = (r, c)

-- The address that the server answers with.
pub record Bound : Type 0 where
  pub is_domain : Bool
  pub address : Bytes
  pub port : Bytes

-- The length of that address, and whether it is a domain name.
unfoldable pub address_length : ℕ → Talk (ℕ × Bool)
address_length atyp =
    if nat_eq atyp 1
    then pure (4, false)
    else if nat_eq atyp 4
    then pure (16, false)
    else if nat_eq atyp 3
    then (do len ← read_full 1; pure (byte_at len 0, true))
    else fail bad_atyp

-- The answer to the connect request, read field by field.
unfoldable pub read_reply : Talk Bound
read_reply = do
  head ← read_full 3
  require (nat_eq (byte_at head 0) 5 && nat_eq (byte_at head 1) 0) bad_reply
  atyp ← read_full 1
  (len, is_domain) ← address_length (byte_at atyp 0)
  address ← read_full len
  port ← read_full 2
  pure (record { is_domain = is_domain; address = address; port = port })

-- All that the two kinds of tunnel have in common.
unfoldable pub ask : ℕ → Proxy → Addr → Talk Bound
ask command p r_addr = elim (destination r_addr) [
  | none ↦ fail not_tcp
  | some d ↦ do
    method ← hand_shake p
    authenticate p method
    request ← lift (connect_request command d)
    write request
    read_reply
]

-- `TcpSock5Handler.Tunnel`.
unfoldable pub tcp_tunnel : (Bytes → Option Conn) → Proxy → Addr → Outcome
tcp_tunnel dial p r_addr = on_dialled dial p (do _ ← ask 1 p r_addr; pure tt)

-- What `UdpSock5Handler.Tunnel` leaves: `rTcpConn` is saved as soon as it is dialled, `rConn` is the
-- UDP socket, here the address that it was dialled to.
pub record UdpOutcome : Type 0 where
  pub result : Result TunnelError (Unit {0})
  pub r_tcp_conn : Option Conn
  pub r_conn : Option (Bytes × ℕ)

-- The address of the UDP server, and the socket to it: `resolve_udp` is given host and port.
unfoldable pub udp_server :
    (Bytes → ℕ → Option (Bytes × ℕ)) → (Bytes × ℕ → Bool) → Bound → Result TunnelError (Bytes × ℕ)
udp_server resolve_udp dial_udp b =
    let port = get_uint16 (byte_at b.port 0) (byte_at b.port 1) in
    let server : Result TunnelError (Bytes × ℕ) =
      if b.is_domain
      then elim (resolve_udp b.address port) [ none ↦ err resolve_failed | some a ↦ ok a ]
      else ok (b.address, port) in
    elim server [ err e ↦ err e | ok a ↦ if dial_udp a then ok a else err dial_udp_failed ]

abbrev pub udp_outcome : Result TunnelError (Bytes × ℕ) → Conn → UdpOutcome
udp_outcome (ok a) c = record { result = ok tt; r_tcp_conn = some c; r_conn = some a }
udp_outcome (err e) c = record { result = err e; r_tcp_conn = some c; r_conn = none }

-- `UdpSock5Handler.Tunnel`.
unfoldable pub udp_tunnel :
    (Bytes → Option Conn)
    → (Bytes → ℕ → Option (Bytes × ℕ))
    → (Bytes × ℕ → Bool)
    → Proxy
    → Addr
    → UdpOutcome
udp_tunnel dial resolve_udp dial_udp p r_addr = elim (dial (dial_address p)) [
  | none ↦ record { result = err dial_failed; r_tcp_conn = none; r_conn = none }
  | some c ↦
      let talk : Talk (Bytes × ℕ) = (do
        b ← ask 3 p r_addr
        lift (udp_server resolve_udp dial_udp b)) in
      udp_outcome (talk c).0 (talk c).1
]
