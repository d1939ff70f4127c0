-- ===== src/Multimap.antt =====
-- include/basket/multimap/multimap.h and multimap.cpp: `basket::multimap`, a sorted multimap spread
-- over the servers by the hash of the key.
pub mod Defs
pub mod Objects
pub mod Local
pub mod Remote
pub mod Contains
pub mod Callers
