-- ===== src/Tools.antt =====
-- The programs of sample/: what sends a file, and what receives one.
pub mod SendFile
pub mod Pipeline
pub mod Related
pub mod ClientList
pub mod LinkList
pub mod TcpSender
pub mod Receive
