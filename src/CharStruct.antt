-- ===== src/CharStruct.antt =====
-- include/basket/common/data_structures.h: `CharStruct`, the text in a fixed array that names, keys and
-- addresses are kept in.
pub mod Defs
pub mod Text
pub mod Wire
pub mod Compare
