-- ===== src/UnorderedMap/Callbacks.antt =====
-- include/basket/unordered_map: `Bind`, `Call` and the operations with callbacks.
pub mod Defs
pub mod Lifetime
pub mod Remote
