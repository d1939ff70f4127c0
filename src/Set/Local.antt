-- ===== src/Set/Local.antt =====
-- `basket::set` on one server, against a finite set.
use basket.Prelude.{◌≡◌, Bool, true, false, if◌then◌else◌, arith, List, is_some}
use basket.Container.Order.{Order, same}
use basket.Container.Entries.{lookup, IsSorted}
use basket.Container.Entries.Laws.{
  lookup-assign, lookup-remove, count-is_some, IsSorted-assign, IsSorted-remove, Finds-lookup,
}
use basket.Set.Defs.{MySet, itself, local_put, local_get, local_erase}

-- Whether a sequence holds a key.
abbrev pub has : {K : Type 0} ⦃o : Order K⦄ → K → List K → Bool
has k xs = is_some (lookup itself k xs)

module _ {K : Type 0} ⦃o : Order K⦄ (boost : MySet K) (fallback : K) where
  open boost use {T, elements}

  abbrev pub IsSortedSet : T → Type 0
  IsSortedSet m = IsSorted itself (elements m)

  pub get-has :
      (k : K) (m : T) → IsSortedSet m → (local_get boost fallback k m).1 ≡ has k (elements m)
  unfolding local_get
  get-has k m s =
      let e = Finds-lookup itself k (elements m) (boost.find k m) s (boost.find-Finds k m) in
      rw (e, local_get) (ground arith)

  pub get_same : (k : K) (m : T) → (local_get boost fallback k m).0 ≡ m
  unfolding local_get
  get_same k m = ground arith

  pub erase-has : (k : K) (m : T) → (local_erase boost fallback k m).1 ≡ has k (elements m)
  unfolding local_erase
  erase-has k m = rw (boost.erase_key-count k m) (count-is_some itself k (elements m))

  pub put-IsSorted : (k : K) (m : T) → IsSortedSet m → IsSortedSet (local_put boost fallback k m).0
  unfolding local_put
  put-IsSorted k m s = rw (boost.elements-insert k m) (IsSorted-assign itself k (elements m) s)

  pub put-has :
      (k : K) (m : T) (j : K)
      → has j (elements (local_put boost fallback k m).0)
        ≡ (if same k j then true else has j (elements m))
  unfolding local_put
  put-has k m j =
      rw (boost.elements-insert k m, lookup-assign itself j k (elements m)) (ground arith)

  pub erase-IsSorted :
      (k : K) (m : T) → IsSortedSet m → IsSortedSet (local_erase boost fallback k m).0
  unfolding local_erase
  erase-IsSorted k m s = rw (boost.elements-erase_key k m) (IsSorted-remove itself k (elements m) s)

  pub has-erase :
      (k : K) (m : T) (j : K)
      → has j (elements (local_erase boost fallback k m).0)
        ≡ (if same k j then false else has j (elements m))
  unfolding local_erase
  has-erase k m j =
      rw (boost.elements-erase_key k m, lookup-remove itself j k (elements m)) (ground arith)
