-- ===== src/Dbus/PacketTests.antt =====
-- Captured packets, a listener, and a start of the service, on concrete inputs.
use deepin_network_proxy.Prelude.{
  ◌+◌, ◌≡◌, refl, ◌≢◌, Bool, true, false, Option, none, some, List, [], ◌∷◌, ◌++◌, map, arith,
  if◌then◌else◌, Bytes, codes, nat_Eq, list_Eq,
}
use deepin_network_proxy.Com.Address.{Addr, udp_addr}
use deepin_network_proxy.Com.Socket.{Numbers}
use deepin_network_proxy.Com.Socket.Options.{OptCall, listens, sets_nonblock, Fds}
use deepin_network_proxy.Config.{Proxy, ScopeProxies, ProxyConfig, new_proxy_cfg, set_scope_proxies}
use deepin_network_proxy.Config.File.{
  write_scope, zero_proxies, write_config, write_pxy_cfg, guarantee_dir,
}
use deepin_network_proxy.Config.File.Memory.{memory, memory-IsLawful}
use deepin_network_proxy.Define.{app, app_priority}
use deepin_network_proxy.Tproxy.Conn.{Conn}
use deepin_network_proxy.Tproxy.Handlers.{HandlerMgr, socks5_udp, close_typ_handler}
use deepin_network_proxy.Dbus.Packets.{read_error, read_msg_udp, returned}
use deepin_network_proxy.Dbus.Packets.Targets.{
  Sent, Seen, packet, hiccup, reading_of, carriers, read_msg_udp_starts,
}
use deepin_network_proxy.Dbus.Packets.Refusal.{IsRefused, goroutine, proxy_udp_refuses}
use deepin_network_proxy.Dbus.Listening.{listen, listen_leaves}
use deepin_network_proxy.Dbus.Startup.{Bus, Started, run_main, init_proxy_prv, run_main-write_scope}

abbrev sender : Addr
sender = udp_addr (10 ∷ 0 ∷ 0 ∷ 2 ∷ []) 4000

-- A query to 8.8.8.8.
abbrev query : Sent
query = record {
  a = 8;
  b = 8;
  c = 8;
  d = 8;
  port = 53;
  family = 2;
  pad0 = 0;
  pad1 = 0;
  pad2 = 0;
  pad3 = 0;
  pad4 = 0;
  pad5 = 0;
  pad6 = 0;
  pad7 = 0;
  datagram = 7 ∷ [];
  sender = sender;
  base = 1;
}

abbrev seen : List Seen
seen = packet query ∷ hiccup ∷ packet query ∷ []

abbrev mgr : HandlerMgr
mgr = record { handler_map = []; scope = app; closed = [] }

read_msg_udp_starts_example :
    read_msg_udp socks5_udp (map reading_of seen ++ read_error false ∷ []) mgr []
    ≡ record { started = carriers seen; mgr = close_typ_handler mgr socks5_udp; reader = returned }
read_msg_udp_starts_example = read_msg_udp_starts socks5_udp seen mgr (omega arith)

abbrev linux : Numbers
linux = record { af_inet = 2; af_inet6 = 10; sock_stream = 1; sock_dgram = 2 }

abbrev office : Proxy
office = record {
  proto_type = codes "sock5";
  name = codes "office";
  server = codes "10.0.0.1";
  port = 1080;
  user_name = [];
  password = [];
}

-- A kernel and a proxy server that allow all.
abbrev peer : Conn
peer = record { incoming = (5 ∷ 0 ∷ []) ∷ []; sent = []; writes_left = 9 }

proxy_udp_refuses_example : IsRefused mgr 1 (
    goroutine linux 5
      (λ c. true)
      (λ a. [])
      (λ server. some peer)
      (λ host port. none)
      (λ a. true)
      (λ a buf. true)
      office
      sender
      (8 ∷ 8 ∷ 8 ∷ 8 ∷ [])
      53
      (7 ∷ [])
      1
      mgr)
proxy_udp_refuses_example =
    proxy_udp_refuses linux 5 (λ c. true) (λ a. []) (λ server. some peer) (λ host port. none)
      (λ a. true) (λ a buf. true) office sender (8 ∷ 8 ∷ 8 ∷ 8 ∷ []) 53 (7 ∷ []) 1 mgr

-- A kernel that does not let the socket be set not to block.
abbrev strict : OptCall → Bool
strict sets_nonblock = false
strict _ = true

abbrev closed_fds : Fds
closed_fds = record { listeners = 0; files = 0; calls = [] }

listen_leaves_example :
    ((listen strict 8080 closed_fds).1.files ≡ 0)
    × ((listen strict 8080 closed_fds).1.listeners
        ≡ (if strict (listens (codes "tcp") 8080) then 0 + 1 else 0))
listen_leaves_example = listen_leaves strict 8080 closed_fds

abbrev settings : ScopeProxies
settings = record zero_proxies { t_port = 8090; proxy_program = codes "/usr/bin/curl" ∷ [] }

abbrev bus : Bus
bus = record { connects = true; exports = λ p. true; requests = λ n. true }

abbrev nothing_gone : Bytes → Bool
nothing_gone p = false

abbrev no_files : Bytes → Option Bytes
no_files p = none

abbrev written_cfg : ProxyConfig
written_cfg = set_scope_proxies new_proxy_cfg app settings

not_nil : new_proxy_cfg.all_proxies ≢ none
unfolding new_proxy_cfg
not_nil e = ground arith

run_main-write_scope_example :
    (r : Started) × (run_main
        (memory nothing_gone written_cfg)
        bus
        (write_scope (memory nothing_gone written_cfg) new_proxy_cfg app settings no_files).2
      ≡ some r)
    × (r.handler ≡ record (init_proxy_prv app app_priority) { proxies = settings } ∷ [])
unfolding write_scope write_config write_pxy_cfg guarantee_dir
run_main-write_scope_example =
    run_main-write_scope (memory nothing_gone written_cfg)
      (memory-IsLawful nothing_gone written_cfg) bus new_proxy_cfg settings no_files not_nil
      (λ buf t. refl) refl refl refl refl

-- To ::1, port 53.
abbrev long_addr : Bytes
long_addr =
    10 ∷ 0 ∷ 0 ∷ 53 ∷ 0 ∷ 0 ∷ 0 ∷ 0 ∷ 0 ∷ 0 ∷ 0 ∷ 0 ∷ 0 ∷ 0 ∷ 0 ∷ 0 ∷ 0 ∷ 0 ∷ 0 ∷ 0 ∷ 0 ∷ 0 ∷ 0 ∷ 1
    ∷ 0 ∷ 0 ∷ 0 ∷ 0 ∷ []
