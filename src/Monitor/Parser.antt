-- ===== src/Monitor/Parser.antt =====
-- KubeArmor/monitor/syscallParser.go: the decoder of the events that the kernel programs write.
pub mod Requests
pub mod Sockets
pub mod Protocols
pub mod Capabilities
pub mod Errors
pub mod Syscalls
pub mod Names
pub mod Reader
pub mod Address
pub mod Args
mod Tests
