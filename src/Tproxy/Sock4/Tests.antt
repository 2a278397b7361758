-- ===== src/Tproxy/Sock4/Tests.antt =====
-- A tunnel through a SOCKS4 server.
use deepin_network_proxy.Config.{Proxy}
use deepin_network_proxy.Com.Address.{tcp_addr, to4}
use deepin_network_proxy.Com.Address.Forms.{ip4}
use deepin_network_proxy.Tproxy.Conn.{Conn}
use deepin_network_proxy.Tproxy.Conn.Reads.{stream}
use deepin_network_proxy.Tproxy.Sock5.{Destination, destination}
use deepin_network_proxy.Tproxy.Sock4.{sock4_request, sock4_tunnel}
use deepin_network_proxy.Tproxy.Sock4.Request.{
  parse_sock4, parse_sock4-sock4_request, sock4_tunnel_succeeds,
}
use deepin_network_proxy.Prelude.{◌≡◌, refl, some, [], ◌∷◌, arith, codes, nat_Eq, list_Eq, ok}

abbrev office : Proxy
office = record {
  proto_type = codes "sock4";
  name = codes "office";
  server = codes "10.0.0.1";
  port = 1080;
  user_name = codes "ann";
  password = [];
}

abbrev target : Destination
target = record { port = 0; ip = 10 ∷ 0 ∷ 0 ∷ 9 ∷ []; domain = [] }

parse_sock4-sock4_request_example :
    parse_sock4 (sock4_request office target)
    ≡ some (record {
      command = 1;
      port = 80;
      ip = 10 ∷ 0 ∷ 0 ∷ 9 ∷ [];
      user = codes "ann";
      domain = [];
    })
unfolding to4
parse_sock4-sock4_request_example =
    parse_sock4-sock4_request office target
      (ip4 10 0 0 9 (omega arith) (omega arith) (omega arith) (omega arith)) refl
      ((λ e. omega arith), ((λ e. omega arith), ((λ e. omega arith), tt))) tt refl (omega arith)

abbrev peer : Conn
peer = record {
  incoming = (0 ∷ 90 ∷ 0 ∷ []) ∷ (80 ∷ 10 ∷ 0 ∷ 0 ∷ 9 ∷ 77 ∷ []) ∷ [];
  sent = [];
  writes_left = 1;
}

sock4_tunnel_succeeds_example :
    (end : Conn) × (sock4_tunnel (λ a. some peer) office (tcp_addr (10 ∷ 0 ∷ 0 ∷ 9 ∷ []) 443)
      ≡ record { result = ok tt; dialled = some end; r_conn = some end })
    × (end.sent ≡ sock4_request office target ∷ [])
    × (stream end.incoming ≡ 77 ∷ [])
unfolding destination
sock4_tunnel_succeeds_example =
    sock4_tunnel_succeeds (λ a. some peer) office (tcp_addr (10 ∷ 0 ∷ 0 ∷ 9 ∷ []) 443) peer target
      (0 ∷ 80 ∷ 10 ∷ 0 ∷ 0 ∷ 9 ∷ []) (77 ∷ []) refl refl (omega arith) refl refl
