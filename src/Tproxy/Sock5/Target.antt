-- ===== src/Tproxy/Sock5/Target.antt =====
-- What becomes of the address that the kernel captured.
use deepin_network_proxy.Config.{Proxy}
use deepin_network_proxy.Com.Address.{ipv4, tcp_addr, udp_addr, domain_addr, put_uint16}
use deepin_network_proxy.Tproxy.Conn.{Conn, not_tcp, dial_failed}
use deepin_network_proxy.Tproxy.Sock5.{
  Destination, destination, address_field, connect_request, or_port_80, dial_address, udp_tunnel,
  ask,
}
use deepin_network_proxy.Tproxy.Sock5.Request.{
  Request, parse_request, parse_request-connect_request, parse_encoded, name, encode,
}
use deepin_network_proxy.Prelude.{
  ℕ, ◌%◌, ◌^◌, ◌≤◌, ◌<◌, ◌≡◌, refl, ap, ◌∙◌, ◌≢◌, ◌⊎◌, inl, inr, Bool, Option, none, some, [], ◌∷◌,
  ◌++◌, arith, length, Bytes, nat_Eq, list_Eq, list_eq_iff, ok, err,
}

-- The request to an address without a domain, which always names port 80.
bare : Bytes → Destination
bare ip = record { port = 0; ip = ip; domain = [] }

bare_request :
    (command : ℕ) (ip : Bytes)
    → (length ip ≡ 4) ⊎ (length ip ≡ 16)
    → (buf : Bytes) × (connect_request command (bare ip) ≡ ok buf)
unfolding bare connect_request address_field
bare_request command ip (inl four) = (5 ∷ command ∷ 0 ∷ ((1 ∷ ip) ++ put_uint16 80), ground arith)
bare_request command ip (inr sixteen) =
    (5 ∷ command ∷ 0 ∷ ((4 ∷ ip) ++ put_uint16 80), ground arith)

-- A connection to a bare TCP address is asked for at port 80, whatever port was captured.
pub tcp_request_port :
    (command : ℕ) (ip : Bytes) (port : ℕ)
    → (length ip ≡ 4) ⊎ (length ip ≡ 16)
    → (d : Destination) × (buf : Bytes) × (r : Request) × (destination (tcp_addr ip port) ≡ some d)
      × (connect_request command d ≡ ok buf)
      × (parse_request buf ≡ some r)
      × (r.port ≡ 80)
unfolding destination bare
tcp_request_port command ip port h =
    let (buf, made) = bare_request command ip h in
    let (host, _, parsed) = parse_request-connect_request command (bare ip) (omega arith) made in
    (bare ip, buf, record { command = command; host = host; port = 80 }, refl, made, parsed, refl)

-- The bytes of a request to a domain.
abbrev named_request : ℕ → Destination → Bytes
named_request command d =
    5 ∷ command ∷ 0 ∷ (encode (name d.domain) ++ put_uint16 (or_port_80 d.port))

domain_request :
    (command : ℕ) (d : Destination)
    → d.domain ≢ []
    → length d.domain ≤ 255
    → d.port < 2 ^ 16
    → (connect_request command d ≡ ok (named_request command d))
      × (parse_request (named_request command d)
          ≡ some (record { command = command; host = name d.domain; port = or_port_80 d.port }))
unfolding connect_request address_field
domain_request command d h k small = (
  ground (arith, list_eq_iff d.domain []),
  parse_encoded (name d.domain) command (or_port_80 d.port) d (ground arith) (refl, h, k),
)

-- A connection to a domain is asked for at the captured port; 80 stands for port 0.
pub domain_request_port :
    (command : ℕ) (network domain : Bytes) (port : ℕ)
    → domain ≢ []
    → length domain ≤ 255
    → port < 2 ^ 16
    → (d : Destination) × (buf : Bytes) × (destination (domain_addr network domain port) ≡ some d)
      × (connect_request command d ≡ ok buf)
      × (parse_request buf
          ≡ some (record { command = command; host = name domain; port = or_port_80 port }))
unfolding destination
domain_request_port command network domain port h k small =
    let d : Destination = record { port = port % 2 ^ 16; ip = ipv4 0 0 0 1; domain = domain } in
    let same : port % 2 ^ 16 ≡ port = omega arith in
    let made = domain_request command d h k (omega arith) in
    (
      d,
      _,
      refl,
      made.0,
      made.1
          ∙ ap (λ n. some (record { command = command; host = name domain; port = or_port_80 n }))
              same,
    )

-- A captured UDP address is never tunnelled: the handler dials the server, gives up on the type of
-- the address, and has sent nothing.
pub udp_tunnel_refuses :
    (dial : Bytes → Option Conn) (resolve_udp : Bytes → ℕ → Option (Bytes × ℕ))
    (dial_udp : Bytes × ℕ → Bool) (p : Proxy) (ip : Bytes) (port : ℕ)
    → udp_tunnel dial resolve_udp dial_udp p (udp_addr ip port) ≡ (elim (dial (dial_address p)) [
      | none ↦ record { result = err dial_failed; r_tcp_conn = none; r_conn = none }
      | some c ↦ record { result = err not_tcp; r_tcp_conn = some c; r_conn = none }
    ])
unfolding udp_tunnel ask destination
udp_tunnel_refuses dial resolve_udp dial_udp p ip port = ground arith
