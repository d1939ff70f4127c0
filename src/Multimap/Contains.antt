-- ===== src/Multimap/Contains.antt =====
-- `LocalContainsInServer` of `basket::multimap`: the pairs of one server whose key contains the key
-- or is contained in it, from the first place where the key could stand.
use basket.Prelude.{
  ℕ, zero, suc, ◌<◌, ◌≡◌, refl, sym, ap, ◌∙◌, Bool, true, false, not, ◌||◌, ◌==◌, arith, List, [],
  ◌∷◌, ◌++◌, append-nil, append_assoc, All, some, get_elem?, length, drop, drop-length, Bool-cases,
  Option-cases, inl, inr,
}
use basket.Container.Order.{Order, ◌<?◌}
use basket.Container.Entries.{IsSorted, lower_bound}
use basket.Container.Range.{copy_until, keep, before_lower_bound, drop-lower_bound}
use basket.Map.Defs.{first}
use basket.Multimap.Defs.{MyMultimap, local_contains_in_server, step_back}

-- What the scan finds for a test `p`, where the elements that pass come first among those at and above
-- `k`, and none is below.
module _ {E K : Type 0} (key : E → K) ⦃o : Order K⦄ (p : K → Bool) (k : K)
    (below : (x : K) → x <? k ≡ true → p x ≡ false)
    (ends : (x y : K) → x <? k ≡ false → x <? y ≡ true → p x ≡ false → p y ≡ false) where
  keep_none : (xs : List E) → All (λ e. p (key e) ≡ false) xs → keep (λ e. p (key e)) xs ≡ []
  keep_none [] h = refl
  keep_none (x ∷ xs) h = rw h.0 (keep_none xs h.1)

  -- After an element that does not pass there is none that does.
  All-ends :
      (x : K) (xs : List E)
      → x <? k ≡ false
      → p x ≡ false
      → All (λ e. x <? key e ≡ true) xs
      → All (λ e. p (key e) ≡ false) xs
  All-ends x [] above fails h = tt
  All-ends x (e ∷ xs) above fails h =
      (ends x (key e) above h.0 fails, All-ends x xs above fails h.1)

  copy_until-keep :
      (xs acc : List E)
      → IsSorted key xs
      → All (λ e. key e <? k ≡ false) xs
      → copy_until (λ e. not (p (key e))) xs acc ≡ acc ++ keep (λ e. p (key e)) xs
  unfolding copy_until
  copy_until-keep [] acc s above = sym (append-nil acc)
  copy_until-keep (x ∷ xs) acc s above = elim (Bool-cases (p (key x))) [
    | inl passes ↦ rw passes (
        copy_until-keep xs (acc ++ x ∷ []) s.1 above.1
        ∙ append_assoc acc (x ∷ []) (keep (λ e. p (key e)) xs))
    | inr fails ↦
        rw (fails, keep_none xs (All-ends (key x) xs above.0 fails s.0)) (sym (append-nil acc))
  ]

  -- None is lost before the lower bound.
  keep-drop :
      (xs : List E)
      → keep (λ e. p (key e)) (drop (lower_bound key k xs) xs) ≡ keep (λ e. p (key e)) xs
  unfolding lower_bound
  keep-drop [] = refl
  keep-drop (x ∷ xs) = elim (Bool-cases (key x <? k)) [
    | inl lower ↦ rw (lower, below (key x) lower) (keep-drop xs)
    | inr above ↦ rw above refl
  ]

module _ {K V : Type 0} ⦃o : Order K⦄ (boost : MyMultimap K V) (mapped : V) (within : K → K → Bool)
    (k : K) where
  open boost use {T, elements}

  -- On a server with a single pair, that pair is returned, whatever its key is.
  pub multimap_local_contains-single :
      (m : T) (e : K × V)
      → elements m ≡ e ∷ []
      → (local_contains_in_server boost mapped within k m).1 ≡ e ∷ []
  unfolding local_contains_in_server
  multimap_local_contains-single m e only = rw (boost.size-length m ∙ ap length only, only)

  -- The code does not look before the predecessor.
  step_back-stays :
      (xs : List (K × V)) (it : ℕ)
      → ((i : ℕ) (e : K × V) → it ≡ suc i → get_elem? xs i ≡ some e → within k (first e) ≡ false)
      → step_back boost mapped within k xs it ≡ it
  unfolding step_back
  step_back-stays xs zero apart = refl
  step_back-stays xs (suc i) apart = elim (Option-cases (get_elem? xs i)) [
    | inl e ↦ rw (e, step_back) refl
    | inr (x, e) ↦ rw (e, step_back) (rw (apart i x refl e) refl)
  ]

  -- On a server with at least two pairs, whose keys ascend: `LocalContainsInServer` returns exactly the
  -- pairs whose key contains the key or is contained in it, in ascending order. It is asked that no key
  -- below the key does so, and that among the others those that do stand before those that do not.
  pub multimap_local_contains-keep :
      (m : T)
      → IsSorted first (elements m)
      → 1 < length (elements m)
      → ((x : K) → x <? k ≡ true → (within k x || within x k) ≡ false)
      → ((x y : K)
          → x <? k ≡ false
          → x <? y ≡ true
          → (within k x || within x k) ≡ false
          → (within k y || within y k) ≡ false)
      → (local_contains_in_server boost mapped within k m).1
        ≡ keep (λ e. within k (first e) || within (first e) k) (elements m)
  unfolding local_contains_in_server
  multimap_local_contains-keep m s many below ends =
      let p : K → Bool = λ x. within k x || within x k in
      let size = boost.size-length m in
      let none_yet : (boost.size m == 0) ≡ false = ground arith in
      let not_one : (boost.size m == 1) ≡ false = ground arith in
      let xs = elements m in
      let it = lower_bound first k xs in
      let (_, sorted, above) = drop-lower_bound first k k xs s in
      let all = keep-drop first p k below ends xs in
      rw (none_yet, not_one, boost.lower_bound_of_lem k m)
        (elim (Bool-cases (it == length xs)) [
          | inl past ↦
              let end_it : it ≡ length xs = ground arith in
              let empty : drop it xs ≡ [] = rw end_it (drop-length xs) in
              rw past (ap (keep (λ e. p (first e))) (sym empty) ∙ all)
          | inr more ↦
              let stays = step_back-stays xs it (λ i e after at.
                let low = before_lower_bound first k xs i e after at in
                ground (arith, below (first e) low)) in
              rw (more, stays)
                (copy_until-keep first p k below ends (drop it xs) [] sorted above ∙ all)
        ])
