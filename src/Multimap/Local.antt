-- ===== src/Multimap/Local.antt =====
-- `basket::multimap` on one server, behind the contract of `LocalStore`.
use basket.Prelude.{
  ◌≡◌, refl, ap, ◌∙◌, Bool, true, if◌then◌else◌, arith, [], none, some, get_elem?, get_elem?-length,
  is_some, inl, inr,
}
use basket.Container.Order.{Order, same, same-eq, same_refl}
use basket.Container.Entries.{assign, insert, remove, IsSorted}
use basket.Container.Entries.Laws.{
  count-is_some, IsSorted-assign, IsSorted-remove, Finds-lookup, insert-assign, assign-remove,
  erase_at-remove, count-remove,
}
use basket.Container.Range.{copy-append}
use basket.Store.{LocalStore, pair_of, assoc}
use basket.Map.Defs.{first}
use basket.Map.Local.{value_at, value_at-assign, value_at-remove, assoc-value_at}
use basket.Multimap.Defs.{
  MyMultimap, local_put, local_get, local_erase, local_get_all_data_in_server,
  local_contains_in_server,
}

module _ {K V : Type 0} ⦃o : Order K⦄ (boost : MyMultimap K V) (mapped : V)
    (within : K → K → Bool) where
  open boost use {T, elements}

  abbrev pub IsSortedMap : T → Type 0
  IsSortedMap m = IsSorted first (elements m)

  pub get-value_at :
      (k : K) (m : T)
      → IsSortedMap m
      → (local_get boost mapped within k m).1 ≡ pair_of mapped (value_at k (elements m))
  unfolding local_get
  get-value_at k m s =
      let e = Finds-lookup first k (elements m) (boost.find k m) s (boost.find-Finds k m) in
      rw (e, local_get) (ground arith)

  pub get_same : (k : K) (m : T) → (local_get boost mapped within k m).0 ≡ m
  unfolding local_get
  get_same k m = ground arith

  pub erase-value_at :
      (k : K) (m : T)
      → (local_erase boost mapped within k m).1 ≡ (is_some (value_at k (elements m)), mapped)
  unfolding local_erase
  erase-value_at k m =
      rw (boost.erase_key-count k m, count-is_some first k (elements m)) (ground arith)

  pub all-elements : (m : T) → (local_get_all_data_in_server boost mapped within m).1 ≡ elements m
  unfolding local_get_all_data_in_server
  all-elements m = copy-append (elements m) []

  -- `LocalPut` first erases the pair under the key, so it leaves what an assignment would.
  pub elements-put :
      (k : K) (v : V) (m : T)
      → IsSortedMap m
      → elements (local_put boost mapped within k v m).0 ≡ assign first (k, v) (elements m)
  unfolding local_put
  elements-put k v m s = elim (boost.find-Finds k m) [
    | inl (e, at, eq) ↦
        let gone = erase_at-remove first k (elements m) (boost.find k m) e s at eq in
        let left = remove first k (elements m) in
        rw at (
          boost.elements-insert (k, v) (boost.erase (boost.find k m) m)
          ∙ ap (insert first (k, v)) (boost.elements-erase (boost.find k m) m ∙ gone)
          ∙ insert-assign first (k, v) left (count-remove first k (elements m))
          ∙ assign-remove first (k, v) (elements m) s)
    | inr (past, absent) ↦
        let ends : get_elem? (elements m) (boost.find k m) ≡ none =
          rw past (get_elem?-length (elements m)) in
        rw ends (boost.elements-insert (k, v) m ∙ insert-assign first (k, v) (elements m) absent)
  ]

  pub put-IsSorted :
      (k : K) (v : V) (m : T) → IsSortedMap m → IsSortedMap (local_put boost mapped within k v m).0
  put-IsSorted k v m s = rw (elements-put k v m s) (IsSorted-assign first (k, v) (elements m) s)

  pub put-true : (k : K) (v : V) (m : T) → (local_put boost mapped within k v m).1 ≡ true
  unfolding local_put
  put-true k v m = refl

  pub put-value_at :
      (k : K) (v : V) (m : T) (j : K)
      → IsSortedMap m
      → value_at j (elements (local_put boost mapped within k v m).0)
        ≡ (if same k j then some v else value_at j (elements m))
  put-value_at k v m j s = rw (elements-put k v m s) (value_at-assign j k v (elements m))

  pub erase-IsSorted :
      (k : K) (m : T) → IsSortedMap m → IsSortedMap (local_erase boost mapped within k m).0
  unfolding local_erase
  erase-IsSorted k m s = rw (boost.elements-erase_key k m) (IsSorted-remove first k (elements m) s)

  pub value_at-erase :
      (k : K) (m : T) (j : K)
      → value_at j (elements (local_erase boost mapped within k m).0)
        ≡ (if same k j then none else value_at j (elements m))
  unfolding local_erase
  value_at-erase k m j = rw (boost.elements-erase_key k m) (value_at-remove j k (elements m))

  pub all_same : (m : T) → (local_get_all_data_in_server boost mapped within m).0 ≡ m
  unfolding local_get_all_data_in_server
  all_same m = refl

  pub contains_same : (k : K) (m : T) → (local_contains_in_server boost mapped within k m).0 ≡ m
  unfolding local_contains_in_server
  contains_same k m = ground arith

  pub assoc-all :
      (m : T) (j : K)
      → assoc same j (local_get_all_data_in_server boost mapped within m).1
        ≡ value_at j (elements m)
  assoc-all m j = rw (all-elements m) (assoc-value_at (elements m) j)

  -- The operations of one server, behind the contract.
  abbrev pub multimap_store : LocalStore T K V
  multimap_store = record {
    equal = same;
    equal-eq = same-eq;
    equal_refl = same_refl;
    mapped = mapped;
    put = local_put boost mapped within;
    get = local_get boost mapped within;
    erase = local_erase boost mapped within;
    IsValid = IsSortedMap;
    view = λ m k. value_at k (elements m);
    get_all = local_get_all_data_in_server boost mapped within;
    put-IsValid = put-IsSorted;
    put-true = put-true;
    view-put = put-value_at;
    get-view = get-value_at;
    get_same = get_same;
    erase-IsValid = erase-IsSorted;
    erase-is_some = λ k m _. erase-value_at k m;
    view-erase = λ k m j _. value_at-erase k m j;
    get_all_same = all_same;
    assoc-get_all = λ m j _. assoc-all m j;
  }
