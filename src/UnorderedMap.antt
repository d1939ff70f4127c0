-- ===== src/UnorderedMap.antt =====
-- include/basket/unordered_map/unordered_map.h and unordered_map.cpp: `basket::unordered_map`, a hash
-- map spread over the servers by the hash of the key.
pub mod Defs
pub mod Objects
pub mod Local
pub mod Remote
pub mod Owner
pub mod Callbacks
pub mod Callers
pub mod Segments
