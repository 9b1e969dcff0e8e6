-- ===== src/Programs.antt =====
-- The loops of the programs in client/ and server/.
pub mod Splitter
pub mod Receiver
pub mod Mains
pub mod Relay
