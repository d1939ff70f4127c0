-- ===== src/Container/Entries.antt =====
-- Sorted sequences of elements with a key: what an ordered boost container does, described on the
-- sequence from `begin()` to `end()`. An iterator is a place in it, `end()` the length.
pub mod Laws
use basket.Prelude.{
  ℕ, zero, suc, ◌+◌, ◌≡◌, refl, Bool, true, false, if◌then◌else◌, arith, List, [], ◌∷◌, ◌++◌, All,
  Option, none, some, get_elem?, length, ◌⊎◌, inl, inr, Bool-cases,
}
use basket.Container.Order.{Order, ◌<?◌, same, same-eq, same_refl, lt_asymm}

module _ {ℓ} {E K : Type ℓ} (key : E → K) ⦃o : Order K⦄ where
  -- `insert_or_assign` of a map, `insert` of a set: one element for each key.
  unfoldable pub assign : E → List E → List E
  assign e [] = e ∷ []
  assign e (x ∷ xs) =
      if key e <? key x then e ∷ x ∷ xs else if key x <? key e then x ∷ assign e xs else e ∷ xs

  -- `insert` of a multimap: behind the elements with an equal key.
  unfoldable pub insert : E → List E → List E
  insert e [] = e ∷ []
  insert e (x ∷ xs) = if key e <? key x then e ∷ x ∷ xs else x ∷ insert e xs

  -- `erase(key)`: what stays, and how many went.
  unfoldable pub remove : K → List E → List E
  remove k [] = []
  remove k (x ∷ xs) = if same (key x) k then remove k xs else x ∷ remove k xs

  unfoldable pub count : K → List E → ℕ
  count k [] = 0
  count k (x ∷ xs) = if same (key x) k then suc (count k xs) else count k xs

  -- The first element whose key is not less than `k`.
  unfoldable pub lower_bound : K → List E → ℕ
  lower_bound k [] = 0
  lower_bound k (x ∷ xs) = if key x <? k then suc (lower_bound k xs) else 0

  -- The element under a key.
  unfoldable pub lookup : K → List E → Option E
  lookup k [] = none
  lookup k (x ∷ xs) = if same (key x) k then some x else lookup k xs

  -- Strictly ascending keys.
  abbrev pub IsSorted : List E → Type 0
  IsSorted [] = Unit
  IsSorted (x ∷ xs) = All (λ y. key x <? key y ≡ true) xs × IsSorted xs

  -- `find`: a place of an element with the key, or `end()` where there is none.
  abbrev pub Finds : K → List E → ℕ → Type ℓ
  Finds k xs i =
      ((e : E) × (get_elem? xs i ≡ some e) × (key e ≡ k)) ⊎ ((i ≡ length xs) × (count k xs ≡ 0))

-- Erasing at an iterator.
module _ {ℓ} {E : Type ℓ} where
  abbrev pub erase_at : ℕ → List E → List E
  erase_at i [] = []
  erase_at zero (x ∷ xs) = xs
  erase_at (suc i) (x ∷ xs) = x ∷ erase_at i xs
