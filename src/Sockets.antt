-- ===== src/Sockets.antt =====
-- The socket wrappers: the calls they make and the addresses they pass.
pub mod Calls
pub mod Address
pub mod Nonblocking
pub mod Examples
pub mod Blocking
pub mod LoopExamples
pub mod Datagrams
