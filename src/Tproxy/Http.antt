-- ===== src/Tproxy/Http.antt =====
-- tproxy/HttpHandler.go: how a handler asks an HTTP proxy for a tunnel. `host` stands for
-- `rAddr.String()`; `write_request` and `read_response` for what net/http does on the connection.
pub mod Tunnel
pub mod Eproxy
mod Tests
use deepin_network_proxy.Prelude.{
  Option, ℕ, List, [], ◌∷◌, ◌++◌, nat_eq, if◌then◌else◌, Bytes, codes, GoMap, insert, list_Eq,
  nat_Eq,
}
use deepin_network_proxy.Config.{Proxy}
use deepin_network_proxy.Com.Address.{Addr}
use deepin_network_proxy.Tproxy.Base64.{encode_to_string}
use deepin_network_proxy.Tproxy.Conn.{
  Conn, TunnelError, bad_status, Talk, ◌>>=◌, ◌>>◌, pure, fail, require,
}
use deepin_network_proxy.Tproxy.Sock5.{Outcome, on_dialled, has_auth}

-- The fields of `http.Request` that `Tunnel` sets.
pub record Request : Type 0 where
  pub method : Bytes
  pub host : Bytes
  pub url_host : Bytes
  pub header : GoMap Bytes (List Bytes)

abbrev pub authorization_key : Bytes
authorization_key = codes "Proxy-Authorization"

-- The header: credentials only when both parts are there.
unfoldable pub request_header : Proxy → GoMap Bytes (List Bytes)
request_header p =
    if has_auth p
    then insert authorization_key
        ((codes "Basic " ++ encode_to_string (p.user_name ++ codes ":" ++ p.password)) ∷ []) []
    else []

unfoldable pub http_request : Proxy → Bytes → Request
http_request p target = record {
  method = codes "CONNECT";
  host = target;
  url_host = target;
  header = request_header p;
}

module _ (host : Addr → Bytes) (write_request : Request → Talk (Unit {0}))
    (read_response : Request → Talk ℕ) where
  unfoldable pub ask_http : Request → Talk (Unit {0})
  ask_http req = do
    write_request req
    status ← read_response req
    require (nat_eq status 200) (bad_status status)

  -- `HttpHandler.Tunnel`.
  unfoldable pub http_tunnel : (Bytes → Option Conn) → Proxy → Addr → Outcome
  http_tunnel dial p r_addr = on_dialled dial p (ask_http (http_request p (host r_addr)))
