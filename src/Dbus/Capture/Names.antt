-- ===== src/Dbus/Capture/Names.antt =====
-- The address that a captured connection's tunnel is asked for.
use deepin_network_proxy.Prelude.{nat_Eq, list_Eq}
use deepin_network_proxy.Dbus.Lru.{Lru}
use deepin_network_proxy.Dbus.Dns.{Dns}
use deepin_network_proxy.Dbus.Dns.History
