-- ===== src/Config.antt =====
-- include/basket/common/configuration_manager.h: `ConfigurationManager`, which reads the server list and
-- says which server a process belongs to.
pub mod Defs
pub mod Servers
