-- ===== src/PriorityQueue.antt =====
-- include/basket/priority_queue/priority_queue.h and priority_queue.cpp: `basket::priority_queue`, one
-- priority queue on each server, which the caller names.
pub mod Defs
pub mod Objects
pub mod Order
pub mod Remote
pub mod Sorted
pub mod Callers
