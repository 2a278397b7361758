-- ===== src/Tproxy/Http/Tunnel.antt =====
-- What the HTTP proxy is asked, and when its answer makes a tunnel.
use deepin_network_proxy.Prelude.{
  ℕ, ◌≡◌, refl, ap, ◌↔◌, inl, inr, Option, none, some, List, [], ◌∷◌, ◌++◌, arith, nat_eq,
  if◌then◌else◌, Bytes, codes, insert, lookup, list_Eq, nat_Eq, ok, err, drop, take, Bool-cases,
  Option-cases, Result, ap₂, some_inj, Result-cases, ◌==◌, nat_eq_iff,
}
use deepin_network_proxy.Config.{Proxy}
use deepin_network_proxy.Com.Address.{Addr}
use deepin_network_proxy.Tproxy.Base64.{decode_string, AreBytes, decode_string-encode_to_string}
use deepin_network_proxy.Tproxy.Conn.{Conn, Talk, TunnelError}
use deepin_network_proxy.Tproxy.Sock5.{Outcome, outcome, dial_address, on_dialled, has_auth}
use deepin_network_proxy.Tproxy.Http.{
  Request, authorization_key, request_header, http_request, ask_http, http_tunnel,
}

-- RFC 7617: the only value of the header names the scheme, and then has the credentials in base64.
abbrev basic_credentials : Option (List Bytes) → Option Bytes
basic_credentials (some (value ∷ [])) =
    if take 6 value == codes "Basic " then decode_string (drop 6 value) else none
basic_credentials _ = none

abbrev pub read_credentials : Request → Option Bytes
read_credentials req = basic_credentials (lookup authorization_key req.header)

AreBytes-append : (xs ys : Bytes) → AreBytes xs → AreBytes ys → AreBytes (xs ++ ys)
AreBytes-append [] ys h k = k
AreBytes-append (x ∷ xs) ys (h, hs) k = (h, AreBytes-append xs ys hs k)

-- When user and password consist of bytes, reading the request's credentials back gives
-- `user:password` if both are set, and nothing otherwise.
pub read_credentials-http_request :
    (p : Proxy) (target : Bytes)
    → AreBytes p.user_name
    → AreBytes p.password
    → read_credentials (http_request p target)
      ≡ (if has_auth p then some (p.user_name ++ codes ":" ++ p.password) else none)
unfolding http_request request_header lookup insert
read_credentials-http_request p target hu hp = elim (Bool-cases (has_auth p)) [
  | inl y ↦
      rw (y, http_request, request_header)
        (rw
          (decode_string-encode_to_string (p.user_name ++ codes ":" ++ p.password) (
            AreBytes-append (p.user_name ++ codes ":") p.password
              (AreBytes-append p.user_name (codes ":") hu (omega arith, tt)) hp))
          refl)
  | inr n ↦ rw (n, http_request, request_header) refl
]

outcome_ok :
    (r : Result TunnelError (Unit {0})) (c end : Conn)
    → outcome r c ≡ record { result = ok tt; dialled = some end; r_conn = some end }
    → (r ≡ ok tt) × (c ≡ end)
outcome_ok (ok tt) c end h = (refl, some_inj (ap (λ (o : Outcome). o.dialled) h))
outcome_ok (err e) c end h = absurd (let k = ap (λ (o : Outcome). o.result) h in ground arith)

module _ (host : Addr → Bytes) (write_request : Request → Talk (Unit {0}))
    (read_response : Request → Talk ℕ) where
  ask_http_ok :
      (req : Request) (c end : Conn)
      → ask_http host write_request read_response req c ≡ (ok tt, end)
      → (write_request req c ≡ (ok tt, (write_request req c).1))
        × (read_response req (write_request req c).1 ≡ (ok 200, end))
  unfolding ask_http
  ask_http_ok req c end h = elim (Result-cases (write_request req c).0) [
    | inl (e, w) ↦ absurd (let k = rw w at h in ground arith)
    | inr (_, w) ↦ (
      ground arith,
      let k = rw w at h in
          elim (Result-cases (read_response req (write_request req c).1).0) [
            | inl (e, r) ↦ absurd (let k' = rw r at k in ground arith)
            | inr (status, r) ↦
                let k' = rw r at k in
                elim (Bool-cases (nat_eq status 200)) [
                  | inl y ↦ let k'' = rw y at k' in ground (arith, nat_eq_iff status 200)
                  | inr n ↦ absurd (let k'' = rw n at k' in ground arith)
                ]
          ],
    )
  ]

  -- `Tunnel` succeeds and saves a connection just when the proxy server could be dialled, the
  -- request for the target was written on this connection, and the status of the answer is 200; the
  -- connection is the one that the answer was read from.
  pub http_tunnel_succeeds_iff :
      (dial : Bytes → Option Conn) (p : Proxy) (r_addr : Addr) (end : Conn)
      → (http_tunnel host write_request read_response dial p r_addr
          ≡ record { result = ok tt; dialled = some end; r_conn = some end })
        ↔ ((c : Conn) × (mid : Conn) × (dial (dial_address p) ≡ some c)
            × (write_request (http_request p (host r_addr)) c ≡ (ok tt, mid))
            × (read_response (http_request p (host r_addr)) mid ≡ (ok 200, end)))
  unfolding http_tunnel on_dialled ask_http
  http_tunnel_succeeds_iff dial p r_addr end =
      let req = http_request p (host r_addr) in
      let talk = ask_http host write_request read_response req in
      (
        λ h. elim (Option-cases (dial (dial_address p))) [
          | inl none_there ↦ absurd (
              let k =
                ap (λ (o : Outcome). o.result) (rw (http_tunnel, on_dialled, none_there) at h) in
              ground arith)
          | inr (c, dials) ↦
              let (good, same) =
                outcome_ok (talk c).0 (talk c).1 end (rw (http_tunnel, on_dialled, dials) at h) in
              let (written, answered) = ask_http_ok req c end (ap₂ (λ r x. (r, x)) good same) in
              (c, (write_request req c).1, dials, written, answered)
        ],
        λ (c, mid, dials, written, answered).
            rw (http_tunnel, on_dialled, dials, ask_http) (rw written (rw answered refl)),
      )
