-- ===== src/Tproxy/Sock4.antt =====
-- tproxy/Sock4Handler.go: how a handler asks a SOCKS4 server for a tunnel.
pub mod Request
mod Tests
use deepin_network_proxy.Config.{Proxy}
use deepin_network_proxy.Com.Address.{Addr, to4, put_uint16}
use deepin_network_proxy.Tproxy.Conn.{
  Conn, TunnelError, not_tcp, bad_sock4, Talk, ◌>>=◌, ◌>>◌, pure, fail, require, write, read_full,
  byte_at,
}
use deepin_network_proxy.Tproxy.Sock5.{Outcome, on_dialled, Destination, destination, or_port_80}
use deepin_network_proxy.Prelude.{
  ◌+◌, ◌&&◌, Option, none, some, [], ◌∷◌, ◌++◌, arith, nat_eq, if◌then◌else◌, Bytes, nat_Eq,
  list_Eq, ◌==◌,
}

abbrev pub or_nothing : Option Bytes → Bytes
or_nothing none = []
or_nothing (some bs) = bs

-- The connect request: an address without four bytes adds nothing.
unfoldable pub sock4_request : Proxy → Destination → Bytes
sock4_request p d =
    4
    ∷ 1
    ∷ (put_uint16 (or_port_80 d.port)
        ++ (or_nothing (to4 d.ip)
            ++ (p.user_name ++ 0 ∷ (if d.domain == [] then [] else d.domain ++ 0 ∷ []))))

-- Its answer: VN CD, then port and address.
unfoldable pub read_sock4 : Talk (Unit {0})
read_sock4 = do
  head ← read_full 2
  require (nat_eq (byte_at head 0) 0 && nat_eq (byte_at head 1) 90) bad_sock4
  _ ← read_full 6
  pure tt

unfoldable pub ask_sock4 : Proxy → Addr → Talk (Unit {0})
ask_sock4 p r_addr = elim (destination r_addr) [
  | none ↦ fail not_tcp
  | some d ↦ do write (sock4_request p d); read_sock4
]

-- `Sock4Handler.Tunnel`.
unfoldable pub sock4_tunnel : (Bytes → Option Conn) → Proxy → Addr → Outcome
sock4_tunnel dial p r_addr = on_dialled dial p (ask_sock4 p r_addr)
