-- ===== src/Dbus/Packets/Targets.antt =====
-- Which goroutines readMsgUDP starts for the packets that the kernel redirects.
use deepin_network_proxy.Prelude.{
  ℕ, ◌^◌, ◌<◌, ◌≡◌, refl, sym, ap, ◌∙◌, true, false, List, [], ◌∷◌, ◌++◌, map, append-nil,
  append_assoc, length, Bytes, nat_Eq, list_Eq,
}
use deepin_network_proxy.Com.Address.{Addr, udp_addr}
use deepin_network_proxy.Com.Socket.Control.{
  orig_dst, orig_dst6, parse_remote_addr_from_msg_hdr-orig_dst,
  parse_remote_addr_from_msg_hdr-orig_dst6,
}
use deepin_network_proxy.Tproxy.Handlers.{ProtoTyp, HandlerMgr, close_typ_handler}
use deepin_network_proxy.Dbus.Packets.{
  Packet, Reading, reads, read_error, returned, exited, read_into, read_msg_udp,
}

-- A packet that was sent to a.b.c.d, as the kernel reports it: `pad` is the rest of the `sockaddr_in`.
pub record Sent : Type 0 where
  pub a : ℕ
  pub b : ℕ
  pub c : ℕ
  pub d : ℕ
  pub port : ℕ
  pub family : ℕ
  pub pad0 : ℕ
  pub pad1 : ℕ
  pub pad2 : ℕ
  pub pad3 : ℕ
  pub pad4 : ℕ
  pub pad5 : ℕ
  pub pad6 : ℕ
  pub pad7 : ℕ
  pub datagram : Bytes
  pub sender : Addr
  pub base : ℕ

-- What `ReadMsgUDP` gives before the proxy stops: a packet, or a passing error.
pub data Seen : Type 0 where
  packet : Sent → Seen
  hiccup : Seen

abbrev pub addr_of : Sent → Bytes
addr_of p = p.a ∷ p.b ∷ p.c ∷ p.d ∷ []

abbrev pub pad_of : Sent → Bytes
pad_of p = p.pad0 ∷ p.pad1 ∷ p.pad2 ∷ p.pad3 ∷ p.pad4 ∷ p.pad5 ∷ p.pad6 ∷ p.pad7 ∷ []

abbrev pub reading_of : Seen → Reading
reading_of hiccup = read_error true
reading_of (packet p) =
    reads p.datagram (orig_dst p.family (addr_of p) p.port (pad_of p)) p.sender p.base

-- The goroutine that is to carry a packet.
abbrev pub carrier : Sent → Packet
carrier p = record {
  l_addr = p.sender;
  r_addr = udp_addr (addr_of p) p.port;
  buf = read_into p.datagram;
  base = p.base;
}

abbrev pub carriers : List Seen → List Packet
carriers [] = []
carriers (hiccup ∷ ss) = carriers ss
carriers (packet p ∷ ss) = carrier p ∷ carriers ss

abbrev pub ArePorts : List Seen → Type 0
ArePorts [] = Unit {0}
ArePorts (hiccup ∷ ss) = ArePorts ss
ArePorts (packet p ∷ ss) = (p.port < 2 ^ 16) × ArePorts ss

-- The loop goes on behind what it has seen, with one goroutine more for each packet.
read_msg_udp-append :
    (typ : ProtoTyp) (ss : List Seen) (rest : List Reading) (m : HandlerMgr) (started : List Packet)
    → ArePorts ss
    → read_msg_udp typ (map reading_of ss ++ rest) m started
      ≡ read_msg_udp typ rest m (started ++ carriers ss)
unfolding read_msg_udp
read_msg_udp-append typ [] rest m started small =
    ap (read_msg_udp typ rest m) (sym (append-nil started))
read_msg_udp-append typ (hiccup ∷ ss) rest m started small =
    read_msg_udp-append typ ss rest m started small
read_msg_udp-append typ (packet p ∷ ss) rest m started small =
    let found =
      parse_remote_addr_from_msg_hdr-orig_dst p.a p.b p.c p.d p.pad0 p.pad1 p.pad2 p.pad3 p.pad4
        p.pad5 p.pad6 p.pad7 p.family p.port small.0 in
    rw (read_msg_udp, found)
      (read_msg_udp-append typ ss rest m (started ++ carrier p ∷ []) small.1
        ∙ ap (read_msg_udp typ rest m) (append_assoc started (carrier p ∷ []) (carriers ss)))

-- Until the proxy has stopped, each IPv4 packet starts one goroutine, in the order of the packets, for
-- the address and the port that it was sent to; passing errors change nothing, and at the stop the
-- handlers of the protocol are closed.
pub read_msg_udp_starts :
    (typ : ProtoTyp) (ss : List Seen) (m : HandlerMgr)
    → ArePorts ss
    → read_msg_udp typ (map reading_of ss ++ read_error false ∷ []) m []
      ≡ record { started = carriers ss; mgr = close_typ_handler m typ; reader = returned }
unfolding read_msg_udp
read_msg_udp_starts typ ss m small = read_msg_udp-append typ ss (read_error false ∷ []) m [] small

-- The first IPv6 packet ends the process, whatever came before it and comes after it.
pub read_msg_udp_exits :
    (typ : ProtoTyp) (ss : List Seen) (datagram addr : Bytes) (sender : Addr) (base : ℕ)
    (rest : List Reading) (m : HandlerMgr)
    → ArePorts ss
    → length addr ≡ 28
    → read_msg_udp typ
        (map reading_of ss ++ (reads datagram (orig_dst6 addr) sender base ∷ rest))
        m
        []
      ≡ record { started = carriers ss; mgr = m; reader = exited }
unfolding read_msg_udp
read_msg_udp_exits typ ss datagram addr sender base rest m small long =
    read_msg_udp-append typ ss (reads datagram (orig_dst6 addr) sender base ∷ rest) m [] small
    ∙ rw (read_msg_udp, parse_remote_addr_from_msg_hdr-orig_dst6 addr long) refl
