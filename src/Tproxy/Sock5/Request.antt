-- ===== src/Tproxy/Sock5/Request.antt =====
-- The connect request against RFC 1928: an independent reader of its bytes.
use deepin_network_proxy.Com.Address.{to16, put_uint16}
use deepin_network_proxy.Com.Address.Forms.{length-to16}
use deepin_network_proxy.Tproxy.Conn.{ip_invalid, domain_too_long}
use deepin_network_proxy.Tproxy.Sock5.{Destination, address_field, connect_request, or_port_80}
use deepin_network_proxy.Prelude.{
  lengths, ℕ, ◌+◌, ◌*◌, ◌^◌, ◌≤◌, ◌<◌, ◌≡◌, refl, ap, ◌∙◌, ◌≢◌, ◌↔◌, inl, inr, not, ◌&&◌, Option,
  none, some, [], ◌∷◌, ◌++◌, arith, ltb, nat_eq, if◌then◌else◌, ltb-false, Bool-cases, Option-cases,
  length, take, drop, take-append_length, drop-append_length, Bytes, nat_Eq, list_Eq, list_eq_iff,
  ==-cases, ok, err,
}

pub data Host : Type 0 where
  v4 v6 name : Bytes → Host

pub record Request : Type 0 where
  pub command : ℕ
  pub host : Host
  pub port : ℕ

-- DST.PORT, and nothing behind it.
unfoldable pub parse_port : ℕ → Host → Bytes → Option Request
parse_port command host (hi ∷ lo ∷ []) =
    some (record { command = command; host = host; port = hi * 256 + lo })
parse_port command host _ = none

-- The first `n` bytes are the address.
unfoldable pub parse_address : ℕ → (Bytes → Host) → ℕ → Bytes → Option Request
unfolding parse_port
parse_address command host n rest =
    if ltb (length rest) n then none else parse_port command (host (take n rest)) (drop n rest)

unfoldable pub parse_name : ℕ → Bytes → Option Request
unfolding parse_address
parse_name command [] = none
parse_name command (n ∷ rest) = parse_address command name n rest

unfoldable pub parse_request : Bytes → Option Request
unfolding parse_name
parse_request (ver ∷ command ∷ rsv ∷ atyp ∷ rest) =
    if not (nat_eq ver 5 && nat_eq rsv 0)
    then none
    else if nat_eq atyp 1
    then parse_address command v4 4 rest
    else if nat_eq atyp 4
    then parse_address command v6 16 rest
    else if nat_eq atyp 3
    then parse_name command rest
    else none
parse_request _ = none

parse_address_lem :
    (command : ℕ) (host : Bytes → Host) (a : Bytes) (port : ℕ)
    → port < 2 ^ 16
    → parse_address command host (length a) (a ++ put_uint16 port)
      ≡ some (record { command = command; host = host a; port = port })
unfolding parse_address
parse_address_lem command host a port h =
    rw
      (
        ltb-false (length (a ++ put_uint16 port)) (length a) (grind lengths),
        take-append_length a (put_uint16 port),
        drop-append_length a (put_uint16 port),
      )
      (unfold put_uint16 parse_port in ground arith)

-- Where the destination says that the tunnel is to lead.
abbrev pub Names : Destination → Host → Type 0
Names d (name n) = (n ≡ d.domain) × (d.domain ≢ []) × (length n ≤ 255)
Names d (v4 ip) = (ip ≡ d.ip) × (length ip ≡ 4) × (d.domain ≡ [])
Names d (v6 ip) = (to16 d.ip ≡ some ip) × (length d.ip ≢ 4) × (d.domain ≡ [])

abbrev pub encode : Host → Bytes
encode (v4 ip) = 1 ∷ ip
encode (v6 ip) = 4 ∷ ip
encode (name n) = 3 ∷ length n ∷ n

abbrev Shape : ℕ → Destination → Bytes → Type 0
Shape command d buf =
    (h : Host) × Names d h × (buf ≡ 5 ∷ command ∷ 0 ∷ (encode h ++ put_uint16 (or_port_80 d.port)))

connect_request-Shape :
    (command : ℕ) (d : Destination) (buf : Bytes)
    → connect_request command d ≡ ok buf
    → Shape command d buf
unfolding connect_request address_field
connect_request-Shape command d buf e = elim (==-cases d.domain []) [
  | inl (none_named, t) ↦ elim (Bool-cases (nat_eq (length d.ip) 4)) [
    | inl four ↦ (v4 d.ip, (refl, ground arith, none_named), ground arith)
    | inr other ↦ elim (Option-cases (to16 d.ip)) [
      | inl bad ↦ absurd (ground arith)
      | inr (long, l) ↦ (v6 long, (l, ground arith, none_named), ground arith)
    ]
  ]
  | inr (named, t) ↦ (name d.domain, (refl, named, ground arith), ground arith)
]

pub parse_encoded :
    (h : Host) (command port : ℕ) (d : Destination)
    → port < 2 ^ 16
    → Names d h
    → parse_request (5 ∷ command ∷ 0 ∷ (encode h ++ put_uint16 port))
      ≡ some (record { command = command; host = h; port = port })
unfolding parse_request
parse_encoded (v4 ip) command port d small n =
    rw (n.1) at (parse_address_lem command v4 ip port small)
parse_encoded (v6 ip) command port d small n =
    rw (length-to16 d.ip n.0) at (parse_address_lem command v6 ip port small)
parse_encoded (name n) command port d small _ = parse_address_lem command name n port small

-- Whatever request is built reads back, as RFC 1928 lays it out, as the command, the destination's
-- host and its port, 80 standing for port 0.
pub parse_request-connect_request :
    (command : ℕ) (d : Destination) {buf : Bytes}
    → d.port < 2 ^ 16
    → connect_request command d ≡ ok buf
    → (h : Host) × Names d h
      × (parse_request buf
          ≡ some (record { command = command; host = h; port = or_port_80 d.port }))
parse_request-connect_request command d h e =
    let (host, n, shape) = connect_request-Shape command d _ e in
    (
      host,
      n,
      ap parse_request shape ∙ parse_encoded host command (or_port_80 d.port) d (ground arith) n,
    )

-- A request is refused just where the domain is longer than a byte can say, or where there is
-- neither a domain nor an address of four or sixteen bytes.
pub connect_request_fails :
    (command : ℕ) (d : Destination)
    → ((connect_request command d ≡ err domain_too_long)
        ↔ ((d.domain ≢ []) × (255 < length d.domain)))
      × ((connect_request command d ≡ err ip_invalid)
          ↔ ((d.domain ≡ []) × (length d.ip ≢ 4) × (to16 d.ip ≡ none)))
unfolding connect_request address_field
connect_request_fails command d = ground (arith, list_eq_iff d.domain [])
