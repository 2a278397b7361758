-- ===== src/Dbus/Capture.antt =====
-- dbus/proxyPriv_proxy.go: accept and the goroutines of proxyTcp that it starts, one for each captured
-- connection. A goroutine is a connection that waits for the answer of its tunnel; the handlers are
-- those of Tproxy.Handlers. What the proxy server answers is part of the events.
pub mod Names
pub mod Counts
pub mod Ends
use deepin_network_proxy.Prelude.{
  ℕ, zero, suc, ◌+◌, ap, Bool, true, false, Option, none, some, List, [], ◌∷◌, ◌++◌, if◌then◌else◌,
  take, Bytes, codes, Eq, nat_Eq, list_Eq,
}
use deepin_network_proxy.Com.Address.{Addr, tcp_addr, udp_addr, domain_addr}
use deepin_network_proxy.Tproxy.Handlers.{
  ProtoTyp, none_proto, http, socks4, socks5_tcp, socks5_udp, HandlerKey, HandlerMgr, add_handler,
  close_base_handler, close_typ_handler,
}
use deepin_network_proxy.Dbus.Lru.{Lru}
use deepin_network_proxy.Dbus.Dns.{Dns, get_by_ip, ◌>>?◌}

-- `lConn`: its remote and local address. The handler that is made for it is a number.
pub record Captured : Type 0 where
  pub l_addr : Bytes
  pub r_text : Bytes
  pub r_addr : Addr
  pub base : ℕ

-- A goroutine of `proxyTcp` that is in `Tunnel`, with the address that it asks for.
pub record Waiting : Type 0 where
  pub conn : Captured
  pub real_r_addr : Addr

-- The key of the connection.
abbrev pub key_of : Captured → HandlerKey
key_of c = record { src_addr = c.l_addr; dst_addr = c.r_text }

-- `NewHandler`: whether there is a handler for the protocol, or nil.
unfoldable pub has_handler : ProtoTyp → Bool
has_handler http = true
has_handler socks4 = true
has_handler socks5_tcp = true
has_handler socks5_udp = true
has_handler none_proto = false

abbrev pub or_domain : Bytes → ℕ → Addr → Option Bytes → Addr
or_domain network port addr none = addr
or_domain network port addr (some domain) = domain_addr network domain port

-- What happens, in the order of the events: a connection is accepted, the tunnel of a goroutine
-- answers with success or an error, the accepting fails.
pub data Event : Type 0 where
  arrives : Captured → Event
  answers : ℕ → Bool → Event
  fails : Event
  -- `Communicate` of a handler comes to its end, and `Remove` is called.
  removes : HandlerKey → Event

-- The goroutine at a place in the list, and the others.
abbrev pub take_out : ℕ → List Waiting → Option (Waiting × List Waiting)
take_out n [] = none
take_out zero (w ∷ ws) = some (w, ws)
take_out (suc n) (w ∷ ws) = elim (take_out n ws) [ none ↦ none | some (v, vs) ↦ some (v, w ∷ vs) ]

module _ (D : Lru ℕ) (I : Lru Bytes) where
  -- `proxyTcp`'s address for the proxy server. `none` is a panic of the search for the domain.
  unfoldable pub real_addr : Dns D I → Addr → Option (Addr × Dns D I)
  real_addr s (udp_addr ip port) = get_by_ip D I s ip >>? λ (found, t).
      some (or_domain (codes "udp") port (udp_addr ip port) found, t)
  real_addr s (tcp_addr ip port) = get_by_ip D I s ip >>? λ (found, t).
      some (or_domain (codes "tcp") port (tcp_addr ip port) found, t)
  real_addr s (domain_addr network domain port) = some (domain_addr network domain port, s)

  -- The state that the goroutines share.
  pub record Hall : Type 0 where
    pub dns : Dns D I
    pub mgr : HandlerMgr
    pub waiting : List Waiting
    pub accepting : Bool

  -- `proxyTcp` up to the call of `Tunnel`: a call on nil is a panic.
  unfoldable pub proxy_tcp : ProtoTyp → Captured → Hall → Option Hall
  proxy_tcp typ c h = real_addr h.dns c.r_addr >>? λ (addr, t).
      if has_handler typ
      then some (record h {
        dns = t;
        waiting = h.waiting ++ record { conn = c; real_r_addr = addr } ∷ [];
      })
      else none

  -- `proxyTcp` from there on: the handler is closed, or entered and left to `Communicate`.
  unfoldable pub answered : ProtoTyp → Captured → Bool → HandlerMgr → HandlerMgr
  answered typ c good m =
      if good
      then add_handler m typ (key_of c) c.base
      else record m { closed = m.closed ++ c.base ∷ [] }

  -- One event; `accept` leaves its loop at the first error, and closes the handlers of the protocol.
  unfoldable pub step : ProtoTyp → Hall → Event → Option Hall
  step typ h (arrives c) = if h.accepting then proxy_tcp typ c h else some h
  step typ h (answers n good) = elim (take_out n h.waiting) [
    | none ↦ some h
    | some (w, ws) ↦ some (record h { mgr = answered typ w.conn good h.mgr; waiting = ws })
  ]
  step typ h fails =
      if h.accepting
      then some (record h { mgr = close_typ_handler h.mgr typ; accepting = false })
      else some h
  step typ h (removes key) = some (record h { mgr = close_base_handler h.mgr typ key })

  unfoldable pub run : ProtoTyp → Hall → List Event → Option Hall
  run typ h [] = some h
  run typ h (e ∷ es) = step typ h e >>? λ h'. run typ h' es
