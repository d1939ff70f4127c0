-- ===== src/Store.antt =====
-- What the key-value containers (`map`, `multimap`, `unordered_map`, and `set` with one value) share.
mod Contract
mod Servers
mod Start
mod Callers
pub use Contract.*
pub use Servers.*
pub use Start.*
pub use Callers.*
