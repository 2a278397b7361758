-- ===== src/Com.antt =====
-- com/utils.go: the helpers that the other packages share.
pub mod Slices
pub mod Address
pub mod Pid
pub mod Path
pub mod Endian
pub mod Text
pub mod Socket
pub mod Package
mod Tests
