-- ===== src/Set/Member.antt =====
-- `basket::set` on one server under the contract of the key-value containers, with one value.
use basket.Prelude.{
  ◌≡◌, refl, Bool, true, false, if◌then◌else◌, arith, List, Option, none, some, [], ◌∷◌, map,
  is_some, Bool-cases, inl, inr,
}
use basket.Container.Order.{Order, same, same-eq, same_refl}
use basket.Container.Entries.{lookup}
use basket.Container.Range.{copy-append}
use basket.Store.{LocalStore, pair_of, assoc}
use basket.Set.Defs.{
  MySet, local_put, local_get, local_erase, local_get_all_data_in_server, local_contains_in_server,
}
use basket.Set.Local.{
  has, IsSortedSet, get-has, get_same, erase-has, put-IsSorted, put-has, erase-IsSorted, has-erase,
}

-- Membership as a map with one value.
abbrev pub member : Bool → Option {0} Unit
member true = some tt
member false = none

abbrev pub paired : Bool → Bool × Unit {0}
paired b = (b, tt)

pub is_some-member : (b : Bool) → is_some (member b) ≡ b
is_some-member true = refl
is_some-member false = refl

module _ {K : Type 0} ⦃o : Order K⦄ (boost : MySet K) (fallback : K) where
  open boost use {T, elements}

  abbrev pub view : T → K → Option {0} Unit
  view m k = member (has k (elements m))

  pub view-put :
      (k : K) (v : Unit) (m : T) (j : K)
      → IsSortedSet boost fallback m
      → view (local_put boost fallback k m).0 j ≡ (if same k j then some v else view m j)
  view-put k v m j _ = rw (put-has boost fallback k m j) (ground arith)

  pub view-erase :
      (k : K) (m : T) (j : K)
      → IsSortedSet boost fallback m
      → view (local_erase boost fallback k m).0 j ≡ (if same k j then none else view m j)
  view-erase k m j _ = rw (has-erase boost fallback k m j) (ground arith)

  pub get-view :
      (k : K) (m : T)
      → IsSortedSet boost fallback m
      → paired (local_get boost fallback k m).1 ≡ pair_of tt (view m k)
  get-view k m s = rw (get-has boost fallback k m s) (ground arith)

  pub erase-view :
      (k : K) (m : T) → paired (local_erase boost fallback k m).1 ≡ paired (is_some (view m k))
  erase-view k m = rw (erase-has boost fallback k m) (ground arith)

  pub put_true : (k : K) (m : T) → (local_put boost fallback k m).1 ≡ true
  unfolding local_put
  put_true k m = refl

  pub all-elements : (m : T) → (local_get_all_data_in_server boost fallback m).1 ≡ elements m
  unfolding local_get_all_data_in_server
  all-elements m = copy-append (elements m) []

  pub all_same : (m : T) → (local_get_all_data_in_server boost fallback m).0 ≡ m
  unfolding local_get_all_data_in_server
  all_same m = refl

  pub contains_same :
      (start end : K) (m : T) → (local_contains_in_server boost fallback start end m).0 ≡ m
  unfolding local_contains_in_server
  contains_same start end m = ground arith

  pub assoc-view : (xs : List K) (j : K) → assoc same j (map (λ k. (k, tt)) xs) ≡ member (has j xs)
  unfolding lookup
  assoc-view [] j = refl
  assoc-view (x ∷ xs) j = elim (Bool-cases (same x j)) [
    | inl here ↦ rw here
    | inr later ↦ rw later (assoc-view xs j)
  ]

  -- The operations of one server, behind the contract of the key-value containers.
  abbrev pub set_store : LocalStore T K Unit
  set_store = record {
    equal = same;
    equal-eq = same-eq;
    equal_refl = same_refl;
    mapped = tt;
    put = λ k _. local_put boost fallback k;
    get = λ k m. let (m', b) = local_get boost fallback k m in (m', paired b);
    erase = λ k m. let (m', b) = local_erase boost fallback k m in (m', paired b);
    IsValid = IsSortedSet boost fallback;
    view = view;
    get_all = λ m. (m, map (λ k. (k, tt)) (elements m));
    put-IsValid = λ k _. put-IsSorted boost fallback k;
    put-true = λ k _ m. put_true k m;
    view-put = view-put;
    get-view = get-view;
    get_same = get_same boost fallback;
    erase-IsValid = erase-IsSorted boost fallback;
    erase-is_some = λ k m _. erase-view k m;
    view-erase = view-erase;
    get_all_same = λ m. refl;
    assoc-get_all = λ m j _. assoc-view (elements m) j;
  }
