-- ===== src/Map.antt =====
-- include/basket/map/map.h and map.cpp: `basket::map`, a sorted map spread over the servers by the
-- hash of the key.
pub mod Defs
pub mod Objects
pub mod Local
pub mod Remote
pub mod Contains
pub mod Callers
pub mod Configured
pub mod Segments
