-- ===== src/Queue.antt =====
-- include/basket/queue/queue.h and queue.cpp: `basket::queue`, one queue on each server, which the
-- caller names.
pub mod Defs
pub mod Objects
pub mod Fifo
pub mod Wait
pub mod Remote
pub mod Callers
pub mod Segments
