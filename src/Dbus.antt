-- ===== src/Dbus.antt =====
-- dbus/: the service that owns the proxies.
pub mod FakeIp
pub mod Lru
pub mod Dns
pub mod Capture
pub mod Packets
pub mod Listening
pub mod Startup
pub mod Desktop
mod PacketTests
pub mod Rules
pub mod Service
mod Tests
