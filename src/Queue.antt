-- ===== src/Queue.antt =====
-- The FIFO queues: common/queue.c and the three of data_structure/.
pub mod Cells
pub mod Item
pub mod Array
pub mod Sequeue
pub mod Pointer
pub mod Linked
pub mod Menu
