-- ===== src/Nbd.antt =====
-- nbdproxy.cpp, nbdproxy.hpp, memory.hpp and requesthandler.cpp: the NBD device.
pub mod Bytes
pub mod Io
pub mod Slices
pub mod Server
pub mod Proxy
pub mod Memory
pub mod Handlers
pub mod Setup
pub mod Blocks
pub mod Pipeline
pub mod Image
mod Examples
