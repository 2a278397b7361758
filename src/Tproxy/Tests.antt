-- ===== src/Tproxy/Tests.antt =====
-- A tunnel through a SOCKS5 server that asks for no authentication.
use deepin_network_proxy.Define.{main}
use deepin_network_proxy.Tproxy.Relay.{Carrying}
use deepin_network_proxy.Tproxy.Handlers.{
  Side, copying, socks5_tcp, socks5_udp, HandlerKey, HandlerMgr, handler_at, remote_side,
  local_side, key_Eq, proto_Eq,
}
use deepin_network_proxy.Tproxy.Udp.Life.{
  udp_communicate, both_copying, only_ends, udp_communicate_closes, ends, enters, other_side,
  late_end_closes_another,
}
use deepin_network_proxy.Config.{Proxy}
use deepin_network_proxy.Com.Address.{ipv4, put_uint16, tcp_addr, domain_addr}
use deepin_network_proxy.Tproxy.Conn.{Conn}
use deepin_network_proxy.Tproxy.Conn.Reads.{stream}
use deepin_network_proxy.Tproxy.Sock5.{
  address_field, Destination, destination, connect_request, or_port_80, tcp_tunnel,
}
use deepin_network_proxy.Tproxy.Sock5.Request.{
  Host, v4, Names, Request, parse_request, parse_request-connect_request,
}
use deepin_network_proxy.Tproxy.Sock5.Target.{tcp_request_port}
use deepin_network_proxy.Tproxy.Sock5.Run.{preamble, tcp_tunnel_succeeds}
use deepin_network_proxy.Prelude.{
  List, lookup, ◌≡◌, refl, inl, false, Option, none, some, [], ◌∷◌, ◌++◌, arith, Bytes, codes,
  nat_Eq, list_Eq, ok,
}

abbrev office : Proxy
office = record {
  proto_type = codes "sock5";
  name = codes "office";
  server = codes "10.0.0.1";
  port = 1080;
  user_name = [];
  password = [];
}

abbrev example_org : Destination
example_org = record { port = 443; ip = ipv4 0 0 0 1; domain = codes "example.org" }

abbrev request : Bytes
request = 5 ∷ 1 ∷ 0 ∷ 3 ∷ 11 ∷ (codes "example.org" ++ 1 ∷ 187 ∷ [])

request_made : connect_request 1 example_org ≡ ok request
unfolding connect_request address_field put_uint16
request_made = refl

parse_request-connect_request_example :
    (h : Host) × Names example_org h
    × (parse_request request ≡ some (record { command = 1; host = h; port = or_port_80 443 }))
parse_request-connect_request_example =
    parse_request-connect_request 1 example_org (omega arith) request_made

abbrev server : Bytes
server = 10 ∷ 0 ∷ 0 ∷ 1 ∷ []

-- The answer to the request comes in two chunks, with one byte of the tunnelled stream behind it.
abbrev peer : Conn
peer = record {
  incoming = (5 ∷ 0 ∷ []) ∷ (5 ∷ 0 ∷ 0 ∷ 1 ∷ 10 ∷ []) ∷ (0 ∷ 0 ∷ 1 ∷ 4 ∷ 56 ∷ 77 ∷ []) ∷ [];
  sent = [];
  writes_left = 3;
}

abbrev answer : Conn
answer = record {
  incoming = (5 ∷ 0 ∷ 0 ∷ 1 ∷ 10 ∷ []) ∷ (0 ∷ 0 ∷ 1 ∷ 4 ∷ 56 ∷ 77 ∷ []) ∷ [];
  sent = [];
  writes_left = 0;
}

tcp_request_port_example :
    (d : Destination) × (buf : Bytes) × (r : Request) × (destination (tcp_addr server 443) ≡ some d)
    × (connect_request 1 d ≡ ok buf)
    × (parse_request buf ≡ some r)
    × (r.port ≡ 80)
tcp_request_port_example = tcp_request_port 1 server 443 (inl refl)

abbrev dial : Bytes → Option Conn
dial a = some peer

tcp_tunnel_succeeds_example :
    (end : Conn) × (tcp_tunnel dial office (domain_addr [] (codes "example.org") 443)
      ≡ record { result = ok tt; dialled = some end; r_conn = some end })
    × (end.sent ≡ preamble office false ++ request ∷ [])
    × (stream end.incoming ≡ 77 ∷ [])
unfolding destination
tcp_tunnel_succeeds_example =
    tcp_tunnel_succeeds dial office (domain_addr [] (codes "example.org") 443) peer _ request false
      [] answer.incoming 0 (v4 server) 4 56 (77 ∷ []) refl refl request_made (omega arith) refl refl
      refl

abbrev stranger : Conn
stranger = record { incoming = (5 ∷ 255 ∷ []) ∷ []; sent = []; writes_left = 3 }

-- A program's request, in two chunks, and the answer to it.
abbrev program_side : Conn
program_side = record {
  incoming = codes "GET /" ∷ codes " HTTP/1.1" ∷ [];
  sent = [];
  writes_left = 99;
}

abbrev server_side : Conn
server_side = record { incoming = codes "200 OK" ∷ []; sent = []; writes_left = 99 }

abbrev tcp_key : HandlerKey
tcp_key = record { src_addr = codes "10.0.0.2:4000"; dst_addr = codes "10.0.0.9:80" }

abbrev exchange : Carrying
exchange = record {
  session = record {
    mgr = record { handler_map = (socks5_tcp, (tcp_key, 3) ∷ []) ∷ []; scope = main; closed = [] };
    deleted = false;
    to_remote = copying;
    to_local = copying;
  };
  l_conn = program_side;
  r_conn = server_side;
}

-- The program's copy comes to its end and the handler is closed.
abbrev program_first : List Side
program_first =
    remote_side ∷ local_side ∷ remote_side ∷ remote_side ∷ remote_side ∷ remote_side ∷ remote_side
    ∷ remote_side ∷ remote_side ∷ remote_side ∷ remote_side ∷ remote_side ∷ remote_side
    ∷ remote_side ∷ remote_side ∷ remote_side ∷ remote_side ∷ remote_side ∷ local_side ∷ []

abbrev udp_key : HandlerKey
udp_key = record { src_addr = codes "10.0.0.2:4000"; dst_addr = codes "10.0.0.9:53" }

abbrev udp_mgr : HandlerMgr
udp_mgr = record { handler_map = (socks5_udp, (udp_key, 7) ∷ []) ∷ []; scope = main; closed = [] }

udp_communicate_closes_example :
    let s =
      udp_communicate udp_key (both_copying udp_mgr) (only_ends (local_side ∷ remote_side ∷ [])) in
    (handler_at s.mgr socks5_udp udp_key ≡ none) × (s.mgr.closed ≡ 7 ∷ [])
unfolding lookup
udp_communicate_closes_example =
    udp_communicate_closes udp_key udp_mgr 7 local_side (remote_side ∷ []) refl

late_end_closes_another_example :
    let s =
      udp_communicate udp_key
        (both_copying udp_mgr)
        (ends local_side ∷ enters udp_key 9 ∷ ends (other_side local_side) ∷ []) in
    (handler_at s.mgr socks5_udp udp_key ≡ none) × (s.mgr.closed ≡ 7 ∷ 9 ∷ [])
unfolding lookup
late_end_closes_another_example = late_end_closes_another udp_key udp_mgr 7 9 local_side refl
