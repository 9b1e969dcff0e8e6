-- ===== src/Tests.antt =====
-- Runs of the code on small inputs, and the theorems at concrete inputs.
mod Streams
mod Queues
mod Sockets
mod Clients
mod Receivers
mod Nodes
mod Servers
mod Splitting
mod LinkLists
mod Threads
mod Menus
