-- ===== src/Map/Local.antt =====
-- `basket::map` on one server, behind the contract of `LocalStore`.
use mathlib.Core.Option
use basket.Prelude.{
  ◌≡◌, refl, true, if◌then◌else◌, arith, List, [], ◌∷◌, Option, none, some, is_some,
}
use basket.Container.Order.{Order, same, same-eq, same_refl}
use basket.Container.Entries.{assign, remove, lookup, IsSorted}
use basket.Container.Entries.Laws.{
  lookup-assign, lookup-remove, count-is_some, IsSorted-assign, IsSorted-remove, Finds-lookup,
}
use basket.Container.Range.{copy-append}
use basket.Store.{LocalStore, pair_of, assoc}
use basket.Map.Defs.{
  MyMap, first, local_put, local_get, local_erase, local_get_all_data_in_server,
  local_contains_in_server,
}

-- What a sequence of pairs holds under a key.
abbrev pub value_at : {K V : Type 0} ⦃o : Order K⦄ → K → List (K × V) → Option V
value_at k xs = Option.map (λ e. e.1) (lookup first k xs)

module _ {K V : Type 0} ⦃o : Order K⦄ where
  pub value_at-assign :
      (j k : K) (v : V) (xs : List (K × V))
      → value_at j (assign first (k, v) xs) ≡ (if same k j then some v else value_at j xs)
  value_at-assign j k v xs = rw (lookup-assign first j (k, v) xs) (ground arith)

  pub value_at-remove :
      (j k : K) (xs : List (K × V))
      → value_at j (remove first k xs) ≡ (if same k j then none else value_at j xs)
  value_at-remove j k xs = rw (lookup-remove first j k xs) (ground arith)

  pub assoc-value_at : (xs : List (K × V)) (j : K) → assoc same j xs ≡ value_at j xs
  unfolding lookup
  assoc-value_at [] j = refl
  assoc-value_at (e ∷ es) j = ground (arith, assoc-value_at es j)

module _ {K V : Type 0} ⦃o : Order K⦄ (boost : MyMap K V) (mapped : V) where
  open boost use {T, elements}

  abbrev pub IsSortedMap : T → Type 0
  IsSortedMap m = IsSorted first (elements m)

  pub get-value_at :
      (k : K) (m : T)
      → IsSortedMap m
      → (local_get boost mapped k m).1 ≡ pair_of mapped (value_at k (elements m))
  unfolding local_get
  get-value_at k m s =
      let e = Finds-lookup first k (elements m) (boost.find k m) s (boost.find-Finds k m) in
      rw (e, local_get) (ground arith)

  pub get_same : (k : K) (m : T) → (local_get boost mapped k m).0 ≡ m
  unfolding local_get
  get_same k m = ground arith

  pub erase-value_at :
      (k : K) (m : T)
      → (local_erase boost mapped k m).1 ≡ (is_some (value_at k (elements m)), mapped)
  unfolding local_erase
  erase-value_at k m =
      rw (boost.erase_key-count k m, count-is_some first k (elements m)) (ground arith)

  pub all-elements : (m : T) → (local_get_all_data_in_server boost mapped m).1 ≡ elements m
  unfolding local_get_all_data_in_server
  all-elements m = copy-append (elements m) []

  pub put-IsSorted :
      (k : K) (v : V) (m : T) → IsSortedMap m → IsSortedMap (local_put boost mapped k v m).0
  unfolding local_put
  put-IsSorted k v m s =
      rw (boost.elements-insert (k, v) m) (IsSorted-assign first (k, v) (elements m) s)

  pub put-true : (k : K) (v : V) (m : T) → (local_put boost mapped k v m).1 ≡ true
  unfolding local_put
  put-true k v m = refl

  pub put-value_at :
      (k : K) (v : V) (m : T) (j : K)
      → IsSortedMap m
      → value_at j (elements (local_put boost mapped k v m).0)
        ≡ (if same k j then some v else value_at j (elements m))
  unfolding local_put
  put-value_at k v m j s = rw (boost.elements-insert (k, v) m) (value_at-assign j k v (elements m))

  pub erase-IsSorted :
      (k : K) (m : T) → IsSortedMap m → IsSortedMap (local_erase boost mapped k m).0
  unfolding local_erase
  erase-IsSorted k m s = rw (boost.elements-erase_key k m) (IsSorted-remove first k (elements m) s)

  pub value_at-erase :
      (k : K) (m : T) (j : K)
      → value_at j (elements (local_erase boost mapped k m).0)
        ≡ (if same k j then none else value_at j (elements m))
  unfolding local_erase
  value_at-erase k m j = rw (boost.elements-erase_key k m) (value_at-remove j k (elements m))

  pub all_same : (m : T) → (local_get_all_data_in_server boost mapped m).0 ≡ m
  unfolding local_get_all_data_in_server
  all_same m = refl

  pub contains_same :
      (start end : K) (m : T) → (local_contains_in_server boost mapped start end m).0 ≡ m
  unfolding local_contains_in_server
  contains_same start end m = ground arith

  pub assoc-all :
      (m : T) (j : K)
      → assoc same j (local_get_all_data_in_server boost mapped m).1 ≡ value_at j (elements m)
  assoc-all m j = rw (all-elements m) (assoc-value_at (elements m) j)

  -- The operations of one server, behind the contract.
  abbrev pub map_store : LocalStore T K V
  map_store = record {
    equal = same;
    equal-eq = same-eq;
    equal_refl = same_refl;
    mapped = mapped;
    put = local_put boost mapped;
    get = local_get boost mapped;
    erase = local_erase boost mapped;
    IsValid = IsSortedMap;
    view = λ m k. value_at k (elements m);
    get_all = local_get_all_data_in_server boost mapped;
    put-IsValid = put-IsSorted;
    put-true = put-true;
    view-put = put-value_at;
    get-view = get-value_at;
    get_same = get_same;
    erase-IsValid = erase-IsSorted;
    erase-is_some = λ k m _. erase-value_at k m;
    view-erase = λ k m j _. value_at-erase k m j;
    get_all_same = all_same;
    assoc-get_all = λ m j _. assoc-all m j;
  }
