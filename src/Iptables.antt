-- ===== src/Iptables.antt =====
-- new_iptables/: the rules that redirect a scope's packets, and the chains that hold them.
pub mod Rules
pub mod Kernel
pub mod Chain
pub mod Table
pub mod Obedient
mod Tests
