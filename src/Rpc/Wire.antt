-- ===== src/Rpc/Wire.antt =====
-- What travels in a call: the arguments and the results of the functions that the containers bind,
-- and the `as<...>()` of a response, which throws on another type.
use basket.Prelude.{ℕ, Bool, Option, none, some, List}

pub data Args (K V : Type 0) : Type 0 where
  nothing : Args K V
  with_key : K → Args K V
  with_data : V → Args K V
  with_key_data : K → V → Args K V
  with_range : K → K → Args K V
  with_count : ℕ → Args K V

pub data Reply (K V : Type 0) : Type 0 where
  a_bool : Bool → Reply K V
  a_size : ℕ → Reply K V
  a_value : Bool × V → Reply K V
  a_key : Bool × K → Reply K V
  some_keys : List K → Reply K V
  first_keys : Bool × List K → Reply K V
  some_pairs : List (K × V) → Reply K V

module _ {K V : Type 0} where
  abbrev pub as_bool : Reply K V → Option Bool
  as_bool (a_bool b) = some b
  as_bool _ = none

  abbrev pub as_size : Reply K V → Option ℕ
  as_size (a_size n) = some n
  as_size _ = none

  abbrev pub as_value : Reply K V → Option (Bool × V)
  as_value (a_value r) = some r
  as_value _ = none

  abbrev pub as_key : Reply K V → Option (Bool × K)
  as_key (a_key r) = some r
  as_key _ = none

  abbrev pub as_keys : Reply K V → Option (List K)
  as_keys (some_keys ks) = some ks
  as_keys _ = none

  abbrev pub as_pairs : Reply K V → Option (List (K × V))
  as_pairs (some_pairs r) = some r
  as_pairs _ = none
