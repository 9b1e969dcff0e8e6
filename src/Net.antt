-- ===== src/Net.antt =====
-- The socket layer of common/. The operating system is a script: what each of its calls returns, in
-- the order of the calls.
pub mod Os
pub mod Tcp
pub mod Udp
pub mod Socket
pub mod Accept
pub mod Address
pub mod Buffer
pub mod Options
