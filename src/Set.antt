-- ===== src/Set.antt =====
-- include/basket/set/set.h and set.cpp: `basket::set`, a sorted set spread over the servers by the
-- hash of the key.
pub mod Defs
pub mod Objects
pub mod Local
pub mod Member
pub mod Remote
pub mod First
pub mod Contains
pub mod Callers
