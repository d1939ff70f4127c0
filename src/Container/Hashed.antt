-- ===== src/Container/Hashed.antt =====
-- boost::unordered::unordered_map, which the code uses and the repository does not hold. Its
-- iteration order is not specified, so it is described by what it finds.
use basket.Prelude.{
  ℕ, ◌≡◌, refl, Bool, true, if◌then◌else◌, arith, List, [], ◌∷◌, Option, none, some, is_some,
  length,
}
use basket.Store.{assoc}

-- `std::equal_to<KeyType>`
pub record Key (K : Type 0) : Type 0 where
  pub equal : K → K → Bool
  pub equal-eq : (a b : K) → equal a b ≡ true → a ≡ b
  pub equal_refl : (a : K) → equal a a ≡ true

module _ {K : Type 0} (V : Type 0) (key : Key K) where
  open key use {equal}

  -- `find` gives `none` for `end()`.
  pub record HashMap : Type 1 where
    pub T : Type 0
    pub entries : T → List (K × V)
    pub empty : T
    pub insert_or_assign : K → V → T → T
    pub find : K → T → Option V
    pub erase : K → T → T × ℕ
    pub size : T → ℕ
    pub find-empty : (j : K) → find j empty ≡ none
    pub find-insert_or_assign :
        (j k : K) (v : V) (t : T)
        → find j (insert_or_assign k v t) ≡ (if equal k j then some v else find j t)
    pub find-erase :
        (j k : K) (t : T) → find j (erase k t).0 ≡ (if equal k j then none else find j t)
    pub erase-count : (k : K) (t : T) → (erase k t).1 ≡ (if is_some (find k t) then 1 else 0)
    pub assoc-entries : (j : K) (t : T) → assoc equal j (entries t) ≡ find j t
    pub size-length : (t : T) → size t ≡ length (entries t)

module _ {K V : Type 0} (key : Key K) where
  open key use {equal}

  -- The pairs, in no order, without a key.
  unfoldable pub without : K → List (K × V) → List (K × V)
  without k [] = []
  without k (e ∷ es) = if equal e.0 k then without k es else e ∷ without k es

  pub assoc-without :
      (j k : K) (es : List (K × V))
      → assoc equal j (without k es) ≡ (if equal k j then none else assoc equal j es)
  unfolding without
  assoc-without j k [] = ground arith
  assoc-without j k (e ∷ es) = ground (
    arith,
    assoc-without j k es,
    key.equal-eq e.0 k,
    key.equal-eq e.0 j,
    key.equal-eq k j,
    key.equal_refl j,
    key.equal_refl k,
  )

  pub assoc-assign :
      (j k : K) (v : V) (es : List (K × V))
      → assoc equal j ((k, v) ∷ without k es) ≡ (if equal k j then some v else assoc equal j es)
  assoc-assign j k v es = ground (arith, assoc-without j k es)

  -- A list of pairs is such a container.
  abbrev pub list_map : HashMap V key
  list_map = record {
    T = List (K × V);
    entries = λ es. es;
    empty = [];
    insert_or_assign = λ k v es. (k, v) ∷ without k es;
    find = assoc equal;
    erase = λ k es. (without k es, if is_some (assoc equal k es) then 1 else 0);
    size = length;
    find-empty = λ j. refl;
    find-insert_or_assign = assoc-assign;
    find-erase = assoc-without;
    erase-count = λ k es. refl;
    assoc-entries = λ j es. refl;
    size-length = λ es. refl;
  }
