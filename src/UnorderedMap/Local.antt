-- ===== src/UnorderedMap/Local.antt =====
-- `basket::unordered_map` on one server, behind the contract of `LocalStore`.
use basket.Prelude.{
  ◌≡◌, refl, sym, true, false, if◌then◌else◌, ltb, arith, List, [], ◌∷◌, none, some, is_some,
  Bool-cases, inl, inr, length,
}
use basket.Container.Hashed.{Key, HashMap}
use basket.Container.Range.{copy-append}
use basket.Store.{LocalStore, pair_of, assoc}
use basket.UnorderedMap.Defs.{local_put, local_get, local_erase, local_get_all_data_in_server}

module _ {K V : Type 0} {key : Key K} (boost : HashMap V key) (mapped : V) where
  open boost use {T, entries}

  pub put-find :
      (k : K) (v : V) (m : T) (j : K)
      → boost.find j (local_put boost mapped k v m).0
        ≡ (if key.equal k j then some v else boost.find j m)
  unfolding local_put
  put-find k v m j = boost.find-insert_or_assign j k v m

  pub put-true : (k : K) (v : V) (m : T) → (local_put boost mapped k v m).1 ≡ true
  unfolding local_put
  put-true k v m = refl

  pub get-find : (k : K) (m : T) → (local_get boost mapped k m).1 ≡ pair_of mapped (boost.find k m)
  unfolding local_get
  get-find k m = ground arith

  pub get_same : (k : K) (m : T) → (local_get boost mapped k m).0 ≡ m
  unfolding local_get
  get_same k m = ground arith

  pub erase-is_some :
      (k : K) (m : T) → (local_erase boost mapped k m).1 ≡ (is_some (boost.find k m), mapped)
  unfolding local_erase
  erase-is_some k m = rw (boost.erase-count k m) (ground arith)

  pub erase-find :
      (k : K) (m : T) (j : K)
      → boost.find j (local_erase boost mapped k m).0
        ≡ (if key.equal k j then none else boost.find j m)
  unfolding local_erase
  erase-find k m j = boost.find-erase j k m

  length_zero : (es : List (K × V)) → ltb 0 (length es) ≡ false → es ≡ []
  length_zero [] h = refl
  length_zero (e ∷ es) h = absurd (ground arith)

  pub all-entries : (m : T) → (local_get_all_data_in_server boost mapped m).1 ≡ entries m
  unfolding local_get_all_data_in_server
  all-entries m = elim (Bool-cases (ltb 0 (boost.size m))) [
    | inl filled ↦ rw filled (copy-append (entries m) [])
    | inr empty ↦
        let none_left : entries m ≡ [] =
          length_zero (entries m) (rw (boost.size-length m) at empty) in
        rw empty (sym none_left)
  ]

  pub all_same : (m : T) → (local_get_all_data_in_server boost mapped m).0 ≡ m
  unfolding local_get_all_data_in_server
  all_same m = ground arith

  pub assoc-all :
      (m : T) (j : K)
      → assoc key.equal j (local_get_all_data_in_server boost mapped m).1 ≡ boost.find j m
  assoc-all m j = rw (all-entries m) (boost.assoc-entries j m)

  -- The operations of one server, behind the contract.
  abbrev pub hash_store : LocalStore T K V
  hash_store = record {
    equal = key.equal;
    equal-eq = key.equal-eq;
    equal_refl = key.equal_refl;
    mapped = mapped;
    put = local_put boost mapped;
    get = local_get boost mapped;
    erase = local_erase boost mapped;
    IsValid = λ m. Unit;
    view = λ m k. boost.find k m;
    get_all = local_get_all_data_in_server boost mapped;
    put-IsValid = λ k v m _. tt;
    put-true = put-true;
    view-put = λ k v m j _. put-find k v m j;
    get-view = λ k m _. get-find k m;
    get_same = get_same;
    erase-IsValid = λ k m _. tt;
    erase-is_some = λ k m _. erase-is_some k m;
    view-erase = λ k m j _. erase-find k m j;
    get_all_same = all_same;
    assoc-get_all = λ m j _. assoc-all m j;
  }
