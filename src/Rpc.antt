-- ===== src/Rpc.antt =====
-- include/basket/communication/rpc_lib.h and rpc_lib.cpp, include/basket/common/macros.h: how a
-- container reaches the server that holds its data.
pub mod Names
pub mod Suffixes
pub mod Cluster
pub mod Serve
pub mod Gather
pub mod Wire
pub mod Hashing
pub mod Ports
pub mod Variants
pub mod Address
pub mod Singleton
pub mod Factory
