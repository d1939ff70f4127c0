-- ===== src/Rpc/Factory.antt =====
-- include/basket/communication/rpc_factory.h and src/basket/communication/rpc_lib.cpp: the RPC objects of
-- a process, one for each port.
pub mod Defs
pub mod Objects
pub mod Ports
pub mod Engines
