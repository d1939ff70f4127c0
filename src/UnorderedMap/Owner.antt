-- ===== src/UnorderedMap/Owner.antt =====
-- The server that `Put` of `basket::unordered_map` computes for a key, and that of `Get` and `Erase`.
use native.Mathlib.Nat.{mod-mod_of_dvd, dvd_of_mod-eq-zero, le_of_dvd}
use basket.Prelude.{ℕ, ◌%◌, ◌^◌, ◌<◌, ◌≤◌, ◌≡◌, ◌↔◌, arith, ap}
use basket.Rpc.Hashing.{key_int}
use basket.UnorderedMap.Defs.{put_key_int}

-- A divisor of 2 ^ 16 is a number of servers that fits.
pub divides-fits : (n : ℕ) → 2 ^ 16 % n ≡ 0 → n ≤ 2 ^ 16
divides-fits n divides = le_of_dvd (omega arith) (dvd_of_mod-eq-zero n divides)

-- For 1 to 2 ^ 16 servers, the server that `Put` computes is the one that `Get` and `Erase`
-- compute for every hash, exactly if the number of servers divides 2 ^ 16.
pub put_key_int_iff :
    (n : ℕ)
    → 0 < n
    → n ≤ 2 ^ 16
    → ((key_hash : ℕ) → put_key_int key_hash n ≡ key_int key_hash n) ↔ (2 ^ 16 % n ≡ 0)
unfolding put_key_int key_int
put_key_int_iff n pos le = (
  λ all. omega (arith, all (2 ^ 16)),
  λ divides key_hash.
      ap (λ x. x % 2 ^ 16) (mod-mod_of_dvd n key_hash (dvd_of_mod-eq-zero n divides)),
)
