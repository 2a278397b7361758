-- ===== src/Dbus/Packets/Refusal.antt =====
-- What proxyUdp does with a packet: UdpSock5Handler.Tunnel refuses its address.
use deepin_network_proxy.Prelude.{
  ℕ, ◌≡◌, refl, inl, inr, Bool, Option, none, some, List, [], ◌∷◌, ◌++◌, Option-cases, Bytes, codes,
  nat_Eq, list_Eq, ok, err,
}
use deepin_network_proxy.Com.Address.{Addr, tcp_addr, udp_addr, domain_addr}
use deepin_network_proxy.Com.Socket.{
  Numbers, Call, Dialled, mega_dial, dial_from, typ_of, ip_incorrect, same_type, ip_of, domain_of,
}
use deepin_network_proxy.Config.{Proxy}
use deepin_network_proxy.Tproxy.Conn.{Conn, dial_failed, not_tcp}
use deepin_network_proxy.Tproxy.Handlers.{HandlerMgr}
use deepin_network_proxy.Tproxy.Sock5.{dial_address, UdpOutcome}
use deepin_network_proxy.Tproxy.Sock5.Target.{udp_tunnel_refuses}
use deepin_network_proxy.Dbus.Packets.{close_now, Carried, proxy_udp, after_tunnel}

-- `MegaDial` from a UDP address does not panic.
dials :
    (N : Numbers) (fd : ℕ) (allows : Call → Bool) (network ip : Bytes) (port : ℕ) (l_addr : Addr)
    → (d : Dialled) × (mega_dial N fd allows network (udp_addr ip port) l_addr ≡ some d)
unfolding mega_dial same_type ip_of
dials N fd allows network ip port (tcp_addr jp p) = (_, refl)
dials N fd allows network ip port (domain_addr n d p) = (_, refl)
dials N fd allows network ip port (udp_addr jp p) = elim (Option-cases (domain_of N ip)) [
  | inl bad ↦ (([], err ip_incorrect), rw bad refl)
  | inr (domain, good) ↦ (
    dial_from N fd allows domain (typ_of N network) (udp_addr ip port) (udp_addr jp p),
    rw good refl,
  )
]

-- The handler is closed just if `MegaDial` gave a connection for it.
abbrev pub closed_by : List ℕ → ℕ → Option UdpOutcome → List ℕ
closed_by closed base none = closed
closed_by closed base (some _) = closed ++ base ∷ []

-- The goroutine ends with no handler entered, nothing sent to the relay, and the handler that was made
-- for the packet closed.
abbrev pub IsRefused : HandlerMgr → ℕ → Option Carried → Type 0
IsRefused m base r =
    (o : Carried) × (r ≡ some o)
    × (o.mgr.handler_map ≡ m.handler_map)
    × (o.sent ≡ [])
    × (o.mgr.closed ≡ closed_by m.closed base o.tunnel)

abbrev after_refusal : HandlerMgr → ℕ → List Call → UdpOutcome → Carried
after_refusal m base calls t = record {
  mgr = close_now m base;
  calls = calls;
  tunnel = some t;
  sent = [];
}

module _ (N : Numbers) (fd : ℕ) (allows : Call → Bool) (text : Addr → Bytes)
    (dial : Bytes → Option Conn) (resolve_udp : Bytes → ℕ → Option (Bytes × ℕ))
    (dial_udp : Bytes × ℕ → Bool) (relays : Bytes × ℕ → Bytes → Bool) (proxy : Proxy)
    (l_addr : Addr) (ip : Bytes) (port : ℕ) (buf : Bytes) (base : ℕ) (m : HandlerMgr) where
  abbrev pub goroutine : Option Carried
  goroutine =
      proxy_udp N fd allows text dial resolve_udp dial_udp relays proxy
        (record { l_addr = l_addr; r_addr = udp_addr ip port; buf = buf; base = base }) m

  refuses_from :
      (d : Dialled)
      → mega_dial N fd allows (codes "udp") (udp_addr ip port) l_addr ≡ some d
      → IsRefused m base goroutine
  unfolding proxy_udp after_tunnel
  refuses_from (calls, err e) dialled = (
    record { mgr = m; calls = calls; tunnel = none; sent = [] },
    rw (proxy_udp, dialled) refl,
    refl,
    refl,
    refl,
  )
  refuses_from (calls, ok l_conn) dialled =
      let t = udp_tunnel_refuses dial resolve_udp dial_udp proxy ip port in
      elim (Option-cases (dial (dial_address proxy))) [
        | inl down ↦ (
          after_refusal m base calls
              (record { result = err dial_failed; r_tcp_conn = none; r_conn = none }),
          rw (proxy_udp, dialled) (rw (rw down at t) refl),
          refl,
          refl,
          refl,
        )
        | inr (c, up) ↦ (
          after_refusal m base calls
              (record { result = err not_tcp; r_tcp_conn = some c; r_conn = none }),
          rw (proxy_udp, dialled) (rw (rw up at t) refl),
          refl,
          refl,
          refl,
        )
      ]

  -- Every packet that was sent to a UDP address is refused, whatever the kernel and the proxy server
  -- allow: no handler is entered, nothing goes to the relay, and the handler that was made for the
  -- packet, if `MegaDial` gave a connection for it, is closed.
  pub proxy_udp_refuses : IsRefused m base goroutine
  proxy_udp_refuses =
      let (d, dialled) = dials N fd allows (codes "udp") ip port l_addr in refuses_from d dialled
