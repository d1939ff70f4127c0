-- ===== src/Store/Contract.antt =====
-- The contract of a key-value container on one server, which `map`, `multimap` and `unordered_map`
-- meet, and the finite maps that it speaks of.
use mathlib.Core.Option.{or_else}
use basket.Prelude.{
  ◌≡◌, refl, Bool, true, false, if◌then◌else◌, List, [], ◌∷◌, ◌++◌, Option, none, some, Bool-cases,
  is_some, inl, inr,
}

-- The pair of a flag and a value that stands for an optional value.
abbrev pub pair_of {ℓ} : {V : Type ℓ} → V → Option V → Bool × V
pair_of mapped none = (false, mapped)
pair_of mapped (some v) = (true, v)

-- The value under a key in a list of pairs.
module _ {ℓ} {K V : Type ℓ} (equal : K → K → Bool) where
  abbrev pub assoc : K → List (K × V) → Option V
  assoc j [] = none
  assoc j (e ∷ es) = if equal e.0 j then some e.1 else assoc j es

  abbrev pub update : (K → Option V) → K → Option V → K → Option V
  update f k v j = if equal k j then v else f j

  pub assoc-append :
      (j : K) (xs ys : List (K × V)) → assoc j (xs ++ ys) ≡ or_else (assoc j xs) (assoc j ys)
  unfolding or_else
  assoc-append j [] ys = refl
  assoc-append j (e ∷ es) ys = elim (Bool-cases (equal e.0 j)) [
    | inl here ↦ rw here
    | inr later ↦ rw later (assoc-append j es ys)
  ]

-- The container of one server, seen as a function from keys to values.
pub record LocalStore (S K V : Type 0) : Type 1 where
  pub equal : K → K → Bool
  pub equal-eq : (a b : K) → equal a b ≡ true → a ≡ b
  pub equal_refl : (a : K) → equal a a ≡ true
  pub mapped : V
  pub put : K → V → S → S × Bool
  pub get : K → S → S × (Bool × V)
  pub erase : K → S → S × (Bool × V)
  pub IsValid : S → Type 0
  pub view : S → K → Option V
  pub get_all : S → S × List (K × V)
  pub put-IsValid : (k : K) (v : V) (s : S) → IsValid s → IsValid (put k v s).0
  pub put-true : (k : K) (v : V) (s : S) → (put k v s).1 ≡ true
  pub view-put :
      (k : K) (v : V) (s : S) (j : K)
      → IsValid s
      → view (put k v s).0 j ≡ (if equal k j then some v else view s j)
  pub get-view : (k : K) (s : S) → IsValid s → (get k s).1 ≡ pair_of mapped (view s k)
  pub get_same : (k : K) (s : S) → (get k s).0 ≡ s
  pub erase-IsValid : (k : K) (s : S) → IsValid s → IsValid (erase k s).0
  pub erase-is_some : (k : K) (s : S) → IsValid s → (erase k s).1 ≡ (is_some (view s k), mapped)
  pub view-erase :
      (k : K) (s : S) (j : K)
      → IsValid s
      → view (erase k s).0 j ≡ (if equal k j then none else view s j)
  pub get_all_same : (s : S) → (get_all s).0 ≡ s
  pub assoc-get_all : (s : S) (j : K) → IsValid s → assoc equal j (get_all s).1 ≡ view s j
