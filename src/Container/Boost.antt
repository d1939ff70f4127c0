-- ===== src/Container/Boost.antt =====
-- The ordered containers of boost::interprocess (map, set, multimap), which the code uses and the
-- repository does not hold: each operation by what the documentation says of the sequence from
-- `begin()` to `end()`.
use basket.Prelude.{
  ℕ, suc, ◌≡◌, refl, List, [], ◌∷◌, some, get_elem?, length, inl, inr, ◌⊎◌, if◌then◌else◌, ap,
  Bool-cases,
}
use basket.Container.Order.{Order, same, same-eq}
use basket.Container.Entries.{remove, count, lower_bound, Finds, erase_at}

module _ {E K : Type 0} (key : E → K) ⦃o : Order K⦄ where
  -- `ins` is the insertion: `insert_or_assign`, or `insert`. Iterators are places.
  pub record Tree (ins : E → List E → List E) : Type 1 where
    pub T : Type 0
    pub elements : T → List E
    pub empty : T
    pub insert : E → T → T
    pub find : K → T → ℕ
    pub lower_bound_of : K → T → ℕ
    pub erase : ℕ → T → T
    pub erase_key : K → T → T × ℕ
    pub size : T → ℕ
    pub elements-empty : elements empty ≡ []
    pub elements-insert : (e : E) (t : T) → elements (insert e t) ≡ ins e (elements t)
    pub find-Finds : (k : K) (t : T) → Finds key k (elements t) (find k t)
    pub lower_bound_of_lem : (k : K) (t : T) → lower_bound_of k t ≡ lower_bound key k (elements t)
    pub elements-erase : (i : ℕ) (t : T) → elements (erase i t) ≡ erase_at i (elements t)
    pub elements-erase_key :
        (k : K) (t : T) → elements (erase_key k t).0 ≡ remove key k (elements t)
    pub erase_key-count : (k : K) (t : T) → (erase_key k t).1 ≡ count key k (elements t)
    pub size-length : (t : T) → size t ≡ length (elements t)

  -- A place of an element with the key.
  unfoldable pub place : K → List E → ℕ
  place k [] = 0
  place k (x ∷ xs) = if same (key x) k then 0 else suc (place k xs)

  place_later :
      (k : K) (x : E) (xs : List E)
      → Finds key k xs (place k xs)
      → ((e : E) × (get_elem? xs (place k xs) ≡ some e) × (key e ≡ k))
        ⊎ ((suc (place k xs) ≡ suc (length xs)) × (count key k xs ≡ 0))
  place_later k x xs (inl found) = inl found
  place_later k x xs (inr (e, c)) = inr (ap suc e, c)

  pub place-Finds : (k : K) (xs : List E) → Finds key k xs (place k xs)
  unfolding place count
  place-Finds k [] = inr (refl, refl)
  place-Finds k (x ∷ xs) = elim (Bool-cases (same (key x) k)) [
    | inl here ↦ rw here (inl (x, refl, same-eq (key x) k here))
    | inr later ↦ rw later (place_later k x xs (place-Finds k xs))
  ]

  -- The sequence itself is such a container.
  abbrev pub list_tree : (ins : E → List E → List E) → Tree ins
  list_tree ins = record {
    T = List E;
    elements = λ xs. xs;
    empty = [];
    insert = ins;
    find = place;
    lower_bound_of = lower_bound key;
    erase = erase_at;
    erase_key = λ k xs. (remove key k xs, count key k xs);
    size = length;
    elements-empty = refl;
    elements-insert = λ e xs. refl;
    find-Finds = place-Finds;
    lower_bound_of_lem = λ k xs. refl;
    elements-erase = λ i xs. refl;
    elements-erase_key = λ k xs. refl;
    erase_key-count = λ k xs. refl;
    size-length = λ xs. refl;
  }
