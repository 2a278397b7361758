-- ===== src/Tproxy/Http/Tests.antt =====
-- A tunnel through an HTTP proxy.
use deepin_network_proxy.Prelude.{
  ℕ, ◌+◌, ◌-◌, ◌*◌, ◌≡◌, refl, ◌↔◌, some, [], ◌∷◌, ◌++◌, arith, Bytes, codes, nat_Eq, list_Eq, ok,
}
use deepin_network_proxy.Config.{Proxy}
use deepin_network_proxy.Com.Address.{Addr, tcp_addr}
use deepin_network_proxy.Tproxy.Conn.{Conn, Talk, write, read, byte_at, ◌>>=◌, pure}
use deepin_network_proxy.Tproxy.Sock5.{on_dialled}
use deepin_network_proxy.Tproxy.Http.{Request, http_request, http_tunnel, ask_http}
use deepin_network_proxy.Tproxy.Http.Tunnel.{
  read_credentials, read_credentials-http_request, http_tunnel_succeeds_iff,
}

abbrev office : Proxy
office = record {
  proto_type = codes "http";
  name = codes "office";
  server = codes "10.0.0.1";
  port = 8080;
  user_name = codes "ann";
  password = codes "pw";
}

read_credentials-http_request_example :
    read_credentials (http_request office (codes "10.0.0.9:443")) ≡ some (codes "ann:pw")
read_credentials-http_request_example =
    read_credentials-http_request office (codes "10.0.0.9:443")
      (omega arith, (omega arith, (omega arith, tt))) (omega arith, (omega arith, tt))

abbrev host : Addr → Bytes
host a = codes "10.0.0.9:443"

-- The request line and the header's end.
abbrev write_line : Request → Talk (Unit {0})
write_line req = write (req.method ++ codes " " ++ req.host ++ codes " HTTP/1.1\r\n\r\n")

-- The three digits behind "HTTP/1.1 ".
abbrev read_status : Request → Talk ℕ
read_status req = do
  line ← read 4096
  pure ((byte_at line 9 - 48) * 100 + (byte_at line 10 - 48) * 10 + (byte_at line 11 - 48))

abbrev peer : Conn
peer = record { incoming = codes "HTTP/1.1 200 OK\r\n\r\n" ∷ []; sent = []; writes_left = 1 }

abbrev end : Conn
end = record {
  incoming = [];
  sent = codes "CONNECT 10.0.0.9:443 HTTP/1.1\r\n\r\n" ∷ [];
  writes_left = 0;
}

http_tunnel_succeeds_iff_example :
    (http_tunnel host write_line read_status
        (λ a. some peer)
        office
        (tcp_addr (10 ∷ 0 ∷ 0 ∷ 9 ∷ []) 443)
      ≡ record { result = ok tt; dialled = some end; r_conn = some end })
    ↔ ((c : Conn) × (mid : Conn) × (some peer ≡ some c)
        × (write_line (http_request office (codes "10.0.0.9:443")) c ≡ (ok tt, mid))
        × (read_status (http_request office (codes "10.0.0.9:443")) mid ≡ (ok 200, end)))
http_tunnel_succeeds_iff_example =
    http_tunnel_succeeds_iff host write_line read_status (λ a. some peer) office
      (tcp_addr (10 ∷ 0 ∷ 0 ∷ 9 ∷ []) 443) end

-- The right side holds here, so the tunnel is made.
made :
    http_tunnel host write_line read_status
      (λ a. some peer)
      office
      (tcp_addr (10 ∷ 0 ∷ 0 ∷ 9 ∷ []) 443)
    ≡ record { result = ok tt; dialled = some end; r_conn = some end }
unfolding write read http_request http_tunnel on_dialled ask_http
made = refl
