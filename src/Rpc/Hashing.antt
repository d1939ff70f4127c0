-- ===== src/Rpc/Hashing.antt =====
-- Which server a key belongs to: `key_int` of include/basket/map/map.cpp, multimap.cpp, set.cpp and of
-- the reads in include/basket/unordered_map/unordered_map.cpp.
use basket.Prelude.{ℕ, ◌%◌, ◌^◌, ◌<◌, arith}

-- `static_cast<uint16_t>(key_hash % num_servers)`
unfoldable pub key_int : ℕ → ℕ → ℕ
key_int key_hash num_servers = key_hash % num_servers % 2 ^ 16

-- The number always names a server.
pub key_int-lt :
    (key_hash : ℕ) {num_servers : ℕ} → 0 < num_servers → key_int key_hash num_servers < num_servers
unfolding key_int
key_int-lt key_hash h = omega arith
