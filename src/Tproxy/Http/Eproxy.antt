-- ===== src/Tproxy/Http/Eproxy.antt =====
-- tproxy/httphandler_eproxy.go, a handler for programs that know of the proxy: Tunnel reads the program's
-- own request first. `read_request` stands for http.ReadRequest on the program's connection.
use deepin_network_proxy.Prelude.{
  ℕ, suc, ◌≡◌, refl, inl, inr, Option, none, some, [], ◌∷◌, ◌++◌, arith, if◌then◌else◌, Bool-cases,
  Bytes, codes, nat_Eq, list_Eq, ◌==◌, Result, ok, err,
}
use deepin_network_proxy.Config.{Proxy}
use deepin_network_proxy.Tproxy.Conn.{Conn, Talk, TunnelError, dial_failed, write}
use deepin_network_proxy.Tproxy.Sock5.{Outcome, on_dialled, dial_address}
use deepin_network_proxy.Tproxy.Http.{Request, http_request, ask_http, http_tunnel}
use deepin_network_proxy.Com.Address.{Addr}

-- What `Tunnel` uses of the program's request.
pub record LocalRequest : Type 0 where
  pub method : Bytes
  pub host : Bytes

-- The outcome, and the program's connection afterwards.
pub record EproxyOutcome : Type 0 where
  pub outcome : Outcome
  pub l_conn : Conn

abbrev pub established : Bytes
established = codes "HTTP/1.1 200 Connection established\r\n\r\n"

abbrev pub no_tunnel : TunnelError → Option Conn → Outcome
no_tunnel e dialled = record { result = err e; dialled = dialled; r_conn = none }

-- The answer to a program that asks for a tunnel.
unfoldable pub tell_program : LocalRequest → Talk (Unit {0})
tell_program req l = if req.method == codes "CONNECT" then write established l else (ok tt, l)

told_connect :
    (req : LocalRequest) (l : Conn) (k : ℕ)
    → req.method ≡ codes "CONNECT"
    → l.writes_left ≡ suc k
    → tell_program req l ≡ (ok tt, record l { sent = l.sent ++ established ∷ []; writes_left = k })
unfolding tell_program write
told_connect req l k connect left = rw connect (ground arith)

told :
    (req : LocalRequest) (l : Conn) (k : ℕ)
    → l.writes_left ≡ suc k
    → (l' : Conn) × (tell_program req l ≡ (ok tt, l'))
unfolding tell_program write
told req l k left = elim (Bool-cases (req.method == codes "CONNECT")) [
  | inl connect ↦
      (record l { sent = l.sent ++ established ∷ []; writes_left = k }, rw connect (ground arith))
  | inr other ↦ (l, rw other refl)
]

module _ (read_request : Talk LocalRequest) (write_request : Request → Talk (Unit {0}))
    (read_response : Request → Talk ℕ) (dial : Bytes → Option Conn) (p : Proxy) where
  -- `Tunnel` behind the answer to the program.
  abbrev pub after_telling :
      LocalRequest → Conn → Result TunnelError (Unit {0}) × Conn → EproxyOutcome
  after_telling req c (err e, l) = record { outcome = no_tunnel e (some c); l_conn = l }
  after_telling req c (ok _, l) = record {
    outcome =
        on_dialled dial p
          (ask_http (λ a. req.host) write_request read_response (http_request p req.host));
    l_conn = l;
  }

  abbrev pub after_request : Result TunnelError LocalRequest × Conn → EproxyOutcome
  after_request (err e, l) = record { outcome = no_tunnel e none; l_conn = l }
  after_request (ok req, l) = elim (dial (dial_address p)) [
    | none ↦ record { outcome = no_tunnel dial_failed none; l_conn = l }
    | some c ↦ after_telling req c (tell_program req l)
  ]

  -- `HttpHandlerEProxy.Tunnel`.
  unfoldable pub eproxy_tunnel : Conn → EproxyOutcome
  eproxy_tunnel l = after_request (read_request l)

  -- A program that asks for a tunnel is told that it is there before the proxy server has been asked:
  -- the program has got the answer 200, whatever the proxy server says.
  pub eproxy_tunnel_tells :
      (l mid c : Conn) (req : LocalRequest) (k : ℕ)
      → read_request l ≡ (ok req, mid)
      → req.method ≡ codes "CONNECT"
      → dial (dial_address p) ≡ some c
      → mid.writes_left ≡ suc k
      → (eproxy_tunnel l).l_conn.sent ≡ mid.sent ++ established ∷ []
  unfolding eproxy_tunnel
  eproxy_tunnel_tells l mid c req k asked connect up left =
      rw asked (rw (after_request, up) (rw (told_connect req mid k connect left) refl))

  -- The tunnel is the one that HttpHandler makes to the host that the program names.
  pub eproxy_tunnel-http_tunnel :
      (l mid c : Conn) (req : LocalRequest) (k : ℕ) (r_addr : Addr)
      → read_request l ≡ (ok req, mid)
      → dial (dial_address p) ≡ some c
      → mid.writes_left ≡ suc k
      → (eproxy_tunnel l).outcome
        ≡ http_tunnel (λ a. req.host) write_request read_response dial p r_addr
  unfolding eproxy_tunnel http_tunnel
  eproxy_tunnel-http_tunnel l mid c req k r_addr asked up left =
      let (l', tells) = told req mid k left in rw asked (rw (after_request, up) (rw tells refl))
