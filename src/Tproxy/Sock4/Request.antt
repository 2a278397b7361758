-- ===== src/Tproxy/Sock4/Request.antt =====
-- The SOCKS4 request against the protocol's text, SOCKS4A included: an independent reader.
use deepin_network_proxy.Config.{Proxy}
use deepin_network_proxy.Com.Address.{Addr, to4, put_uint16}
use deepin_network_proxy.Com.Address.Forms.{IsIp4, ip4}
use deepin_network_proxy.Tproxy.Conn.{Conn}
use deepin_network_proxy.Tproxy.Conn.Reads.{stream, read_full_prefix, write_lem}
use deepin_network_proxy.Tproxy.Sock5.{
  dial_address, on_dialled, Destination, destination, or_port_80,
}
use deepin_network_proxy.Tproxy.Sock4.{sock4_request, read_sock4, ask_sock4, sock4_tunnel}
use deepin_network_proxy.Prelude.{
  ℕ, ◌+◌, ◌-◌, ◌*◌, ◌/◌, ◌%◌, ◌^◌, ◌≤◌, ◌<◌, ◌≡◌, refl, sym, ap, ◌≢◌, inl, inr, Bool, false, not,
  ◌&&◌, Option, none, some, [], ◌∷◌, ◌++◌, arith, nat_eq, if◌then◌else◌, nat_eq-false, length,
  Bytes, nat_Eq, list_Eq, ◌==◌, ==-cases, ok,
}

pub record Request4 : Type 0 where
  pub command : ℕ
  pub port : ℕ
  pub ip : Bytes
  pub user : Bytes
  pub domain : Bytes

-- A string up to its NULL, and what is behind it.
unfoldable pub until_null : Bytes → Option (Bytes × Bytes)
until_null [] = none
until_null (c ∷ cs) =
    let rest = until_null cs in
    if nat_eq c 0 then some ([], cs) else elim rest [ none ↦ none | some (s, t) ↦ some (c ∷ s, t) ]

-- SOCKS4A: an address 0.0.0.x with x not 0 says that a domain follows the user.
abbrev pub asks_domain : Bytes → Bool
asks_domain (a ∷ b ∷ c ∷ d ∷ []) = nat_eq a 0 && (nat_eq b 0 && (nat_eq c 0 && not (nat_eq d 0)))
asks_domain _ = false

unfoldable pub parse_tail : ℕ → ℕ → Bytes → Bytes → Option Request4
unfolding until_null
parse_tail command port ip rest = elim (until_null rest) [
  | none ↦ none
  | some (user, behind) ↦
      if not (asks_domain ip)
      then (if behind == []
          then some (record { command = command; port = port; ip = ip; user = user; domain = [] })
          else none)
      else elim (until_null behind) [
        | none ↦ none
        | some (domain, left) ↦
            if left == []
            then some
                (record { command = command; port = port; ip = ip; user = user; domain = domain })
            else none
      ]
]

unfoldable pub parse_sock4 : Bytes → Option Request4
unfolding parse_tail
parse_sock4 (ver ∷ command ∷ hi ∷ lo ∷ a ∷ b ∷ c ∷ d ∷ rest) =
    if nat_eq ver 4 then parse_tail command (hi * 256 + lo) (a ∷ b ∷ c ∷ d ∷ []) rest else none
parse_sock4 _ = none

-- A string without NULL.
abbrev pub NoNull : Bytes → Type 0
NoNull [] = Unit {0}
NoNull (c ∷ cs) = (c ≢ 0) × NoNull cs

until_null_lem : (s t : Bytes) → NoNull s → until_null (s ++ 0 ∷ t) ≡ some (s, t)
unfolding until_null
until_null_lem [] t h = refl
until_null_lem (c ∷ s) t h = rw (nat_eq-false c 0 h.0, until_null_lem s t h.1) refl

tail_lem :
    (command port : ℕ) (ip user domain : Bytes)
    → NoNull user
    → NoNull domain
    → asks_domain ip ≡ not (domain == [])
    → parse_tail command port ip (user ++ 0 ∷ (if domain == [] then [] else domain ++ 0 ∷ []))
      ≡ some (record { command = command; port = port; ip = ip; user = user; domain = domain })
unfolding parse_tail
tail_lem command port ip user domain nu nd k = elim (==-cases domain []) [
  | inl (bare, t) ↦
      rw (t, parse_tail, until_null_lem user [] nu, k)
        (rw t (
          ap
            (λ x.
              some (record { command = command; port = port; ip = ip; user = user; domain = x }))
            (sym bare)))
  | inr (_, f) ↦
      rw (f, parse_tail, until_null_lem user (domain ++ 0 ∷ []) nu, k)
        (rw (f, until_null_lem domain [] nd) refl)
]

-- The request reads back as CONNECT to the destination's port (80 for 0), its address, the proxy's
-- user and the destination's domain, when neither string holds a NULL, the address is an IPv4
-- address, and it is of the form 0.0.0.x just if there is a domain.
pub parse_sock4-sock4_request :
    (p : Proxy) (d : Destination) {four : Bytes}
    → IsIp4 four
    → to4 d.ip ≡ some four
    → NoNull p.user_name
    → NoNull d.domain
    → asks_domain four ≡ not (d.domain == [])
    → d.port < 2 ^ 16
    → parse_sock4 (sock4_request p d)
      ≡ some (record {
        command = 1;
        port = or_port_80 d.port;
        ip = four;
        user = p.user_name;
        domain = d.domain;
      })
unfolding sock4_request parse_sock4 put_uint16
parse_sock4-sock4_request p d (ip4 a b c e ha hb hc he) h nu nd k small =
    let same : or_port_80 d.port / 256 % 256 * 256 + or_port_80 d.port % 256 ≡ or_port_80 d.port =
      ground arith in
    rw (h, same) (tail_lem 1 (or_port_80 d.port) (a ∷ b ∷ c ∷ e ∷ []) p.user_name d.domain nu nd k)

-- If the server can be dialled and answers with CD 90, cut up in any way, `Tunnel` succeeds: it has
-- sent just the request, and saves a connection whose stream starts right behind the answer.
pub sock4_tunnel_succeeds :
    (dial : Bytes → Option Conn) (p : Proxy) (r_addr : Addr) (c : Conn) (d : Destination)
    (six extra : Bytes)
    → dial (dial_address p) ≡ some c
    → destination r_addr ≡ some d
    → 1 ≤ c.writes_left
    → length six ≡ 6
    → stream c.incoming ≡ 0 ∷ 90 ∷ (six ++ extra)
    → (end : Conn) × (sock4_tunnel dial p r_addr
        ≡ record { result = ok tt; dialled = some end; r_conn = some end })
      × (end.sent ≡ c.sent ++ sock4_request p d ∷ [])
      × (stream end.incoming ≡ extra)
unfolding sock4_tunnel on_dialled ask_sock4 read_sock4
sock4_tunnel_succeeds dial p r_addr c d six extra dialled ed w len e =
    let sent : Conn = record c {
      sent = c.sent ++ sock4_request p d ∷ [];
      writes_left = c.writes_left - 1;
    } in
    let (mid, r, s) = read_full_prefix sent (0 ∷ 90 ∷ []) (six ++ extra) e in
    let (left, r', s') = read_full_prefix (record sent { incoming = mid }) six extra s in
    (
      record sent { incoming = left },
      rw
          (
            sock4_tunnel,
            on_dialled,
            dialled,
            ask_sock4,
            ed,
            write_lem (sock4_request p d) c w,
            read_sock4,
            r,
          )
          (rw (rw len at r') refl),
      refl,
      s',
    )
