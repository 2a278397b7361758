-- ===== src/Tproxy/Sock5/Run.antt =====
-- A whole `TcpSock5Handler.Tunnel`, from dialling to the saved connection.
use deepin_network_proxy.Config.{Proxy}
use deepin_network_proxy.Com.Address.{Addr}
use deepin_network_proxy.Tproxy.Conn.{Talk, ◌>>=◌, ◌>>◌, Conn, bad_method, write, read}
use deepin_network_proxy.Tproxy.Conn.Reads.{stream, write_lem, read_lem, >>=-assoc}
use deepin_network_proxy.Tproxy.Sock5.{
  Bound, lift, dial_address, on_dialled, Destination, destination, greeting, hand_shake,
  auth_request, authenticate, connect_request, ask, read_reply, tcp_tunnel,
}
use deepin_network_proxy.Tproxy.Sock5.Request.{Host}
use deepin_network_proxy.Tproxy.Sock5.Wire.{Fits, reply_bytes, bound_of, read_reply_lem}
use deepin_network_proxy.Prelude.{
  lengths, ℕ, ◌-◌, ◌≤◌, ◌≡◌, refl, ap₂, ◌∙◌, ◌≢◌, ◌⊎◌, inl, inr, Bool, true, false, Option, none,
  some, List, [], ◌∷◌, ◌++◌, append_assoc, arith, length, Bytes, nat_Eq, list_Eq, ok, err,
}

-- What a server answers that accepts the hand shake, one chunk for each answer; the flag says
-- whether it asks for authentication.
abbrev pub Agrees : Bool → Bytes → List Bytes → List Bytes → Type 0
Agrees false status incoming rest = incoming ≡ (5 ∷ 0 ∷ []) ∷ rest
Agrees true status incoming rest =
    (incoming ≡ (5 ∷ 2 ∷ []) ∷ (1 ∷ status) ∷ rest) × (length status ≤ 31)

-- What the handler sends before its connect request.
abbrev pub preamble : Proxy → Bool → List Bytes
preamble p false = greeting p ∷ []
preamble p true = greeting p ∷ auth_request p ∷ []

greeting-length : (p : Proxy) → 3 ≤ length (greeting p)
unfolding greeting
greeting-length p = ground arith

abbrev pub said : Conn → Bytes → List Bytes → Conn
said c buf rest = record {
  incoming = rest;
  sent = c.sent ++ buf ∷ [];
  writes_left = c.writes_left - 1;
}

-- A request that one chunk answers.
exchange :
    {B : Type 0} (buf : Bytes) (n : ℕ) (c : Conn) (chunk : Bytes) (rest : List Bytes)
    (k : Bytes → Talk B)
    → 1 ≤ c.writes_left
    → c.incoming ≡ chunk ∷ rest
    → length chunk ≤ n
    → (write buf >> (read n >>= k)) c ≡ k chunk (said c buf rest)
exchange buf n c chunk rest k w e h =
    rw (write_lem buf c w, read_lem n (said c buf c.incoming) chunk rest e h) refl

hand_shake_lem :
    (p : Proxy) (c : Conn) (m : ℕ) (rest : List Bytes)
    → 1 ≤ c.writes_left
    → c.incoming ≡ (5 ∷ m ∷ []) ∷ rest
    → (m ≡ 0) ⊎ (m ≡ 2)
    → hand_shake p c ≡ (ok m, said c (greeting p) rest)
unfolding hand_shake
hand_shake_lem p c m rest w e h =
    exchange (greeting p) (length (greeting p)) c (5 ∷ m ∷ []) rest _ w e
      (omega (arith, greeting-length p))
    ∙ elim h [ inl z ↦ rw z refl | inr t ↦ rw t refl ]

authenticate_lem :
    (p : Proxy) (c : Conn) (status : Bytes) (rest : List Bytes)
    → 1 ≤ c.writes_left
    → c.incoming ≡ (1 ∷ status) ∷ rest
    → length status ≤ 31
    → authenticate p 2 c ≡ (ok tt, said c (auth_request p) rest)
unfolding authenticate
authenticate_lem p c status rest w e h =
    exchange (auth_request p) 32 c (1 ∷ status) rest _ w e (omega arith)

length-preamble : (p : Proxy) (b : Bool) → length (preamble p b) ≤ 2
length-preamble p false = omega arith
length-preamble p true = omega arith

-- The connection when the server has agreed, with `rest` still to be read.
abbrev agreed : Proxy → Bool → Conn → List Bytes → Conn
agreed p b c rest = record {
  incoming = rest;
  sent = c.sent ++ preamble p b;
  writes_left = c.writes_left - length (preamble p b);
}

hand_shake_refused :
    (p : Proxy) (c : Conn) (ver m : ℕ) (rest : List Bytes)
    → 1 ≤ c.writes_left
    → c.incoming ≡ (ver ∷ m ∷ []) ∷ rest
    → (ver ≢ 5) ⊎ ((m ≢ 0) × (m ≢ 2))
    → hand_shake p c ≡ (err bad_method, said c (greeting p) rest)
unfolding hand_shake
hand_shake_refused p c ver m rest w e h =
    exchange (greeting p) (length (greeting p)) c (ver ∷ m ∷ []) rest _ w e
      (omega (arith, greeting-length p))
    ∙ ground arith

-- Hand shake and authentication.
agreement :
    (p : Proxy) (c : Conn) (b : Bool) (status : Bytes) (rest : List Bytes)
    → 2 ≤ c.writes_left
    → Agrees b status c.incoming rest
    → (hand_shake p >>= authenticate p) c ≡ (ok tt, agreed p b c rest)
agreement p c false status rest w e =
    rw (hand_shake_lem p c 0 rest (omega arith) e (inl refl)) (unfold authenticate in refl)
agreement p c true status rest w (e, l) =
    rw
      (
        hand_shake_lem p c 2 _ (omega arith) e (inr refl),
        authenticate_lem p (said c (greeting p) ((1 ∷ status) ∷ rest)) status rest (omega arith)
            refl l,
      )
      (ap₂
        (λ (s : List Bytes) (n : ℕ). (ok tt, record { incoming = rest; sent = s; writes_left = n }))
        (append_assoc c.sent (greeting p ∷ []) (auth_request p ∷ [])) (omega arith))

-- The connection saved at the end.
abbrev tunnelled : Proxy → Bool → Bytes → Conn → List Bytes → Conn
tunnelled p b request c left = record {
  incoming = left;
  sent = c.sent ++ (preamble p b ++ request ∷ []);
  writes_left = c.writes_left - length (preamble p b ++ request ∷ []);
}

abbrev request_tunnel : ℕ → Destination → Talk Bound
request_tunnel command d =
    lift (connect_request command d) >>= (λ request. write request >> read_reply)

ask_lem :
    (command : ℕ) (p : Proxy) (r_addr : Addr) (c : Conn) (d : Destination) (request : Bytes)
    (b : Bool) (status : Bytes) (rest : List Bytes) (rsv : ℕ) (h : Host) (hi lo : ℕ) (extra : Bytes)
    → destination r_addr ≡ some d
    → connect_request command d ≡ ok request
    → 3 ≤ c.writes_left
    → Agrees b status c.incoming rest
    → Fits h
    → stream rest ≡ reply_bytes rsv h (hi ∷ lo ∷ []) ++ extra
    → (left : List Bytes) × (ask command p r_addr c
        ≡ (ok (bound_of h (hi ∷ lo ∷ [])), tunnelled p b request c left))
      × (stream left ≡ extra)
unfolding ask
ask_lem command p r_addr c d request b status rest rsv h hi lo extra ed er w a f es =
    let mid = said (agreed p b c rest) request rest in
    let (left, r, s) = read_reply_lem mid rsv h hi lo extra f es in
    (
      left,
      rw
          (
            ask,
            ed,
            >>=-assoc (hand_shake p) (authenticate p) (request_tunnel command d) c,
            agreement p c b status rest (omega arith) a,
            er,
          )
          (rw (write_lem request (agreed p b c rest) (omega (arith, length-preamble p b)), r)
            (ap₂
              (λ (t : List Bytes) (n : ℕ). (
                ok (bound_of h (hi ∷ lo ∷ [])),
                record { incoming = left; sent = t; writes_left = n },
              ))
              (append_assoc c.sent (preamble p b) (request ∷ [])) (grind lengths))),
      s,
    )

-- If the server can be dialled, answers the hand shake (and the authentication, if it asks for it)
-- each in one piece, and then sends a well-formed answer with REP 0, cut up in any way, `Tunnel`
-- succeeds: it has sent the greeting, the authentication just if asked, and the connect request, and
-- saves a connection whose stream starts right behind the answer.
pub tcp_tunnel_succeeds :
    (dial : Bytes → Option Conn) (p : Proxy) (r_addr : Addr) (c : Conn) (d : Destination)
    (request : Bytes) (b : Bool) (status : Bytes) (rest : List Bytes) (rsv : ℕ) (h : Host)
    (hi lo : ℕ) (extra : Bytes)
    → dial (dial_address p) ≡ some c
    → destination r_addr ≡ some d
    → connect_request 1 d ≡ ok request
    → 3 ≤ c.writes_left
    → Agrees b status c.incoming rest
    → Fits h
    → stream rest ≡ reply_bytes rsv h (hi ∷ lo ∷ []) ++ extra
    → (end : Conn) × (tcp_tunnel dial p r_addr
        ≡ record { result = ok tt; dialled = some end; r_conn = some end })
      × (end.sent ≡ c.sent ++ (preamble p b ++ request ∷ []))
      × (stream end.incoming ≡ extra)
unfolding tcp_tunnel on_dialled
tcp_tunnel_succeeds dial p r_addr c d request b status rest rsv h hi lo extra dialled ed er w a f
      es =
    let (left, r, s) =
      ask_lem 1 p r_addr c d request b status rest rsv h hi lo extra ed er w a f es in
    (tunnelled p b request c left, rw (tcp_tunnel, on_dialled, dialled, r) refl, refl, s)

-- A hand shake answered with another version or method ends the tunnel: the error is `bad_method`
-- and nothing but the greeting has been sent.
pub tcp_tunnel_refused :
    (dial : Bytes → Option Conn) (p : Proxy) (r_addr : Addr) (c : Conn) (d : Destination)
    (ver m : ℕ) (rest : List Bytes)
    → dial (dial_address p) ≡ some c
    → destination r_addr ≡ some d
    → 1 ≤ c.writes_left
    → c.incoming ≡ (ver ∷ m ∷ []) ∷ rest
    → (ver ≢ 5) ⊎ ((m ≢ 0) × (m ≢ 2))
    → tcp_tunnel dial p r_addr
      ≡ record { result = err bad_method; dialled = some (said c (greeting p) rest); r_conn = none }
unfolding tcp_tunnel on_dialled ask greeting
tcp_tunnel_refused dial p r_addr c d ver m rest dialled ed w e h =
    rw (tcp_tunnel, on_dialled, dialled, ask, ed, hand_shake_refused p c ver m rest w e h) refl
