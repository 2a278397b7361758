-- ===== src/Lib.antt =====
-- deepin-network-proxy: a service that captures the connections of programs and carries them to
-- proxy servers. The kernel sends the packets of a scope's programs (the scopes are main, app and
-- global) to the service's listener: new_cgroups puts the programs of a scope into a cgroup,
-- new_iptables and ip_route redirect the packets of that cgroup, netlink reports new programs, dbus
-- is the service that ties these together and answers DNS queries, config keeps the proxies, and
-- tproxy has a handler for each captured connection, which asks the proxy server for a tunnel.
--
-- The files follow the repository's packages:
--   Com         com/utils.go. Com.Slices: MegaAdd, MegaInsert, MegaDel, MegaExist, on slices as windows
--               on shared arrays; Com.Address: net.IP and ports in network order; Com.Package:
--               MarshalPackage and UnMarshalPackage; Com.Pid: IsPid; Com.Text:
--               ParseCGroup2FromBuf and ParsePPidFromBuf; Com.Path: Go's filepath.Join;
--               Com.Socket: MegaDial, with the kernel's answers as a parameter; Com.Socket.Control:
--               ParseRemoteAddrFromMsgHdr; Com.Socket.Options: SetSockOptTrn, SetConnOptTrn and
--               CloseBlockListener; Com.Endian: encoding/binary's LittleEndian.
--   Define      define/define.go: scopes and priorities.
--   Config      config/config.go: ScopeProxies and ProxyConfig, as maps that may be nil; Config.File:
--               WritePxyCfg and LoadPxyCfg over a disk, with what com and dbus make of the file.
--   Dbus        Dbus.FakeIp: dbus/fakeip.go; Dbus.Dns: dbus/fakeip_cache.go and
--               dbus/proxyPriv_proxy_dns.go, over Dbus.Lru, the interface of the LRU cache; Dbus.Rules: the
--               rules for iptables that the service writes; Dbus.Service: the Manager and one scope's
--               proxy, with Service.Manager (dbus/Manager.go), Service.Redirect
--               (dbus/proxyPriv_iptables.go, _cgroups.go, _route.go and dbus/proxyPriv.go),
--               Service.Calls (dbus/proxyPriv_proxy.go) and Service.Apps (dbus/AppProxy.go and
--               dbus/GlobalProxy.go); Dbus.Capture: accept and proxyTcp of dbus/proxyPriv_proxy.go;
--               Dbus.Packets: readMsgUDP and proxyUdp there; Dbus.Listening: the sockets that listen and
--               listenPacket there leave open; Dbus.Startup: the start of the service, from main of
--               out/dde-proxy on; Dbus.Desktop: parseDesktopPath of dbus/utils.go.
--   Tproxy      Tproxy.Conn: a connection; Tproxy.Sock5: Tunnel of tproxy/TcpSock5Handler.go and
--               tproxy/UdpSock5Handler.go; Tproxy.Udp: the latter's Read, Write and Communicate; Tproxy.Sock4:
--               tproxy/Sock4Handler.go; Tproxy.Http: tproxy/HttpHandler.go, over what net/http does;
--               Tproxy.Http.Eproxy: tproxy/httphandler_eproxy.go; Tproxy.Handlers:
--               tproxy/BaseHandler.go and the goroutines of tproxy/handlerPriv.go; Tproxy.Relay: the
--               handler's reads and writes there, and the data that its two goroutines copy.
--   Cgroups     new_cgroups/: the controllers, their manager, and the moves of processes.
--   Iptables    new_iptables/: Iptables.Rules: rules.go; Iptables.Kernel: an interface of the command
--               iptables; Iptables.Chain: the rules of one chain of iptables.go;
--               Iptables.Table: the tree of chains as a heap, and manager.go.
--   IpRoute     ip_route/: routes, rules and their commands.
--   Netlink     netlink/: Netlink.Wire: the layouts of define.go and what syscall.ParseNetlinkMessage
--               does; the module itself: netlink.go and utils.go; Netlink.Startup: the start of its
--               service, and loadProc taking turns with listen.
--   RwManager   rwmanager/file.go, which nothing uses.
-- Functions keep their names in lower case: CloseBaseHandler is close_base_handler.
--
-- State is passed explicitly. A talk with a proxy server takes a connection and gives a result or an
-- error with the connection afterwards; what arrives is a list of chunks, so that how the bytes were
-- cut up is part of the input. Two goroutines are a list of the steps that they take in turn. A call
-- that ends in the network, the shell or the file system is a parameter. Unsigned integers are
-- numbers with their wrap-around written out; a Go panic is a missing result, or an outcome of its
-- own in Dbus.Service, where an operation of the service is a function of its whole state. Each loop
-- runs over a list or counts down, with four exceptions: the messages of a datagram in Netlink.Wire
-- and those of a buffer in Com.Socket.Control, whose fuel is the length of the bytes, as each message
-- has sixteen bytes at least, the printing of numbers in Prelude.Decimal, whose fuel is one more than
-- the number, and the removal of a chain with its children in Iptables.Table, whose fuel is one more
-- than the chains on the heap: a child stands behind its parent there.
--
-- Not modelled: the encoding of YAML and JSON, the objects on D-Bus and the DNS server (glue and I/O),
-- the running of scripts, functions that nothing
-- calls (GetTcpRemoteAddr, GetProcStartTime, PromotePrivilege, firstAdjustCGroups), logging and time-outs.
pub mod Prelude
pub mod Com
pub mod Define
pub mod Config
pub mod Dbus
pub mod Tproxy
pub mod Cgroups
pub mod Iptables
pub mod IpRoute
pub mod Netlink
pub mod RwManager
