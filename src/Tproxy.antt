-- ===== src/Tproxy.antt =====
-- tproxy/: the handlers that carry one captured connection each to the proxy server.
pub mod Conn
pub mod Sock5
pub mod Handlers
pub mod Sock4
pub mod Base64
pub mod Http
pub mod Udp
pub mod Relay
mod Tests
