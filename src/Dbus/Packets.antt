-- ===== src/Dbus/Packets.antt =====
-- dbus/proxyPriv_proxy.go: readMsgUDP, which reads the captured packets, and proxyUdp, the goroutine that
-- it starts for each. What the kernel and the proxy server answer are parameters.
pub mod Targets
pub mod Refusal
use deepin_network_proxy.Prelude.{
  ℕ, ◌-◌, Bool, false, Option, none, some, List, [], ◌∷◌, ◌++◌, if◌then◌else◌, length, take, Bytes,
  codes, nat_Eq, list_Eq, ok, err,
}
use deepin_network_proxy.Com.Address.{Addr, udp_addr}
use deepin_network_proxy.Com.Package.{marshal_package}
use deepin_network_proxy.Com.Socket.{Numbers, Call, mega_dial}
use deepin_network_proxy.Com.Socket.Control.{parse_remote_addr_from_msg_hdr}
use deepin_network_proxy.Config.{Proxy}
use deepin_network_proxy.Tproxy.Conn.{Conn}
use deepin_network_proxy.Tproxy.Handlers.{
  ProtoTyp, socks5_udp, HandlerKey, HandlerMgr, add_handler, close_typ_handler,
}
use deepin_network_proxy.Tproxy.Sock5.{UdpOutcome, udp_tunnel}
use deepin_network_proxy.Tproxy.Udp.{zeros, package_to}

-- The arguments of a goroutine of `proxyUdp`, with the number of its handler.
pub record Packet : Type 0 where
  pub l_addr : Addr
  pub r_addr : Addr
  pub buf : Bytes
  pub base : ℕ

-- What `ReadMsgUDP` gives: a datagram with its control messages and its sender, or an error, with the
-- value of `Enabled` at that moment.
pub data Reading : Type 0 where
  reads : Bytes → Bytes → Addr → ℕ → Reading
  read_error : Bool → Reading

-- How far `readMsgUDP` is: it waits for the next packet, it has returned, `logger.Fatal` has ended the
-- process, or it has panicked.
pub data Reader : Type 0 where
  waits returned exited panicked : Reader

-- The goroutines that it has started, in order, and the handlers.
pub record Readings : Type 0 where
  pub started : List Packet
  pub mgr : HandlerMgr
  pub reader : Reader

-- `buf` of 512 bytes after the read: what does not fit is dropped, and nothing is cut off behind.
abbrev pub read_into : Bytes → Bytes
read_into datagram = take 512 datagram ++ zeros (512 - length datagram)

-- The loop of `readMsgUDP`, over what `ReadMsgUDP` gives in turn.
unfoldable pub read_msg_udp : ProtoTyp → List Reading → HandlerMgr → List Packet → Readings
read_msg_udp typ [] m started = record { started = started; mgr = m; reader = waits }
read_msg_udp typ (read_error enabled ∷ rest) m started =
    let more = read_msg_udp typ rest m started in
    if enabled
    then more
    else record { started = started; mgr = close_typ_handler m typ; reader = returned }
read_msg_udp typ (reads datagram oob l_addr base ∷ rest) m started =
    elim (parse_remote_addr_from_msg_hdr (some oob)) [
      | none ↦ record { started = started; mgr = m; reader = panicked }
      | some (err e) ↦ record { started = started; mgr = m; reader = exited }
      | some (ok r) ↦ read_msg_udp typ rest m (
          started
          ++ record {
            l_addr = l_addr;
            r_addr = udp_addr r.ip r.port;
            buf = read_into datagram;
            base = base;
          }
            ∷ [])
    ]

-- What a goroutine of `proxyUdp` leaves: the handlers, the calls of `MegaDial`, what `Tunnel` left, and
-- the packages that went to the relay.
pub record Carried : Type 0 where
  pub mgr : HandlerMgr
  pub calls : List Call
  pub tunnel : Option UdpOutcome
  pub sent : List Bytes

-- `handler.Close()`, called directly.
abbrev pub close_now : HandlerMgr → ℕ → HandlerMgr
close_now m base = record m { closed = m.closed ++ base ∷ [] }

-- `text` is the method String of an address, `relays` whether a write to the relay succeeds.
module _ (N : Numbers) (fd : ℕ) (allows : Call → Bool) (text : Addr → Bytes)
    (dial : Bytes → Option Conn) (resolve_udp : Bytes → ℕ → Option (Bytes × ℕ))
    (dial_udp : Bytes × ℕ → Bool) (relays : Bytes × ℕ → Bytes → Bool) where
  -- `handlerPrv.WriteRemote`, with its nil check.
  unfoldable pub write_remote : Option (Bytes × ℕ) → Bytes → Bool
  write_remote none buf = false
  write_remote (some r_conn) buf = relays r_conn buf

  -- `proxyUdp` behind the tunnel: the handler is entered, and the first package goes to the relay.
  -- `none` is a panic of `MarshalPackage`.
  unfoldable pub carry_first : Packet → List Call → UdpOutcome → HandlerMgr → Option Carried
  carry_first p calls t m =
      let key : HandlerKey = record { src_addr = text p.l_addr; dst_addr = text p.r_addr } in
      let entered = add_handler m socks5_udp key p.base in
      elim (package_to p.r_addr p.buf) [
        | none ↦ none
        | some pkg ↦
            let packet = marshal_package pkg (codes "udp") in
            some (
              if write_remote t.r_conn packet
              then record { mgr = entered; calls = calls; tunnel = some t; sent = packet ∷ [] }
              else record {
                mgr = close_now entered p.base;
                calls = calls;
                tunnel = some t;
                sent = [];
              })
      ]

  -- `proxyUdp` from the end of `Tunnel` on: a failed one closes the handler.
  unfoldable pub after_tunnel : Packet → List Call → UdpOutcome → HandlerMgr → Option Carried
  after_tunnel p calls t m = elim t.result [
    | err e ↦ some (record { mgr = close_now m p.base; calls = calls; tunnel = some t; sent = [] })
    | ok _ ↦ carry_first p calls t m
  ]

  -- `proxyUdp`. `none` is a panic.
  unfoldable pub proxy_udp : Proxy → Packet → HandlerMgr → Option Carried
  proxy_udp proxy p m = elim (mega_dial N fd allows (codes "udp") p.r_addr p.l_addr) [
    | none ↦ none
    | some (calls, err e) ↦ some (record { mgr = m; calls = calls; tunnel = none; sent = [] })
    | some (calls, ok l_conn) ↦
        after_tunnel p calls (udp_tunnel dial resolve_udp dial_udp proxy p.r_addr) m
  ]
