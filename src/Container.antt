-- ===== src/Container.antt =====
-- What the containers take from boost::interprocess and boost::unordered, behind interfaces, and the
-- lists that describe it.
pub mod Order
pub mod Entries
pub mod Range
pub mod Boost
pub mod Collect
pub mod Hashed
pub mod Deque
pub mod Heap
