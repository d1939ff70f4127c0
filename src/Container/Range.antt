-- ===== src/Container/Range.antt =====
-- The scan of `LocalContainsInServer` (include/basket/map/map.cpp, include/basket/set/set.cpp) over
-- the elements from `lower_bound(key_start)` to the last one that is not above `key_end`.
use basket.Prelude.{
  ℕ, zero, suc, ◌≡◌, refl, Bool, true, false, if◌then◌else◌, arith, List, [], ◌∷◌, ◌++◌, All, none,
  some, get_elem?, length, drop, inl, inr, Bool-cases, ◌==◌, ap, sym, ◌∙◌, not, ◌&&◌, append_assoc,
  append-nil, subst, drop-length, Option-cases,
}
use mathlib.Core.Option.{some-injective}
use basket.Container.Order.{Order, ◌<?◌}
use basket.Container.Entries.{lower_bound, IsSorted}

-- `while (it != end()) { final_values.insert(final_values.end(), *it); it++; }` over the elements
-- from the iterator on.
unfoldable pub copy {ℓ} : {E : Type ℓ} → List E → List E → List E
copy [] final_values = final_values
copy (x ∷ xs) final_values = copy xs (final_values ++ x ∷ [])

-- The same with `if (...) break;` before the insertion.
unfoldable pub copy_until {ℓ} : {E : Type ℓ} → (E → Bool) → List E → List E → List E
copy_until stop [] final_values = final_values
copy_until stop (x ∷ xs) final_values =
    let rest = copy_until stop xs (final_values ++ x ∷ []) in if stop x then final_values else rest

-- The elements that pass a test.
abbrev pub keep {ℓ} : {E : Type ℓ} → (E → Bool) → List E → List E
keep p [] = []
keep p (x ∷ xs) = if p x then x ∷ keep p xs else keep p xs

pub copy-append {ℓ} : {E : Type ℓ} (xs acc : List E) → copy xs acc ≡ acc ++ xs
unfolding copy
copy-append [] acc = sym (append-nil acc)
copy-append (x ∷ xs) acc = copy-append xs (acc ++ x ∷ []) ∙ append_assoc acc (x ∷ []) xs

module _ {ℓ} {E K : Type ℓ} (key : E → K) ⦃o : Order K⦄ where
  -- `if (it != begin()) { --it; if (key_start > *it) it++; }`
  unfoldable pub step_back : K → List E → ℕ → ℕ
  step_back start xs zero = zero
  step_back start xs (suc i) = elim (get_elem? xs i) [
    | none ↦ suc i
    | some e ↦ if key e <? start then suc i else i
  ]

  -- The branch of two and more elements, from the iterator that `lower_bound` returned.
  unfoldable pub scan : K → K → List E → ℕ → List E
  unfolding step_back copy_until
  scan start end xs it =
      if it == length xs
      then []
      else copy_until (λ e. end <? key e) (drop (step_back start xs it) xs) []

  -- The elements with a key from `start` to `end`, both included.
  abbrev pub between : K → K → List E → List E
  between start end = keep (λ e. not (key e <? start) && not (end <? key e))

  -- What stands before the lower bound has a smaller key, so stepping back is undone.
  pub before_lower_bound :
      (k : K) (xs : List E) (i : ℕ) (e : E)
      → lower_bound key k xs ≡ suc i
      → get_elem? xs i ≡ some e
      → key e <? k ≡ true
  unfolding lower_bound
  before_lower_bound k [] i e h at = cc
  before_lower_bound k (x ∷ xs) zero e h at = elim (Bool-cases (key x <? k)) [
    | inl below ↦ subst (λ y. key y <? k ≡ true) (some-injective _ _ at) below
    | inr above ↦ absurd (omega (arith, rw above at h))
  ]
  before_lower_bound k (x ∷ xs) (suc i) e h at = elim (Bool-cases (key x <? k)) [
    | inl below ↦ before_lower_bound k xs i e (omega (arith, rw below at h)) at
    | inr above ↦ absurd (omega (arith, rw above at h))
  ]

  pub step_back_stays :
      (k : K) (xs : List E) (it : ℕ)
      → ((i : ℕ) (e : E) → it ≡ suc i → get_elem? xs i ≡ some e → key e <? k ≡ true)
      → step_back k xs it ≡ it
  unfolding step_back
  step_back_stays k xs zero below = refl
  step_back_stays k xs (suc i) below = elim (Option-cases (get_elem? xs i)) [
    | inl e ↦ rw (e, step_back)
    | inr (x, e) ↦ rw (e, step_back) (rw (below i x refl e))
  ]

  between_above :
      (start end : K) (xs : List E) → All (λ e. end <? key e ≡ true) xs → between start end xs ≡ []
  between_above start end [] h = refl
  between_above start end (x ∷ xs) h = ground (arith, between_above start end xs)

  All-after :
      (a b : K) (xs : List E)
      → a <? b ≡ true
      → All (λ e. b <? key e ≡ true) xs
      → All (λ e. a <? key e ≡ true) xs
  All-after a b [] lt h = tt
  All-after a b (x ∷ xs) lt h = (o.lt_trans a b (key x) lt h.0, All-after a b xs lt h.1)

  All-not_below :
      (a b : K) (xs : List E)
      → b <? a ≡ false
      → All (λ e. b <? key e ≡ true) xs
      → All (λ e. key e <? a ≡ false) xs
  All-not_below a b [] ge h = tt
  All-not_below a b (x ∷ xs) ge h =
      (ground (arith, o.lt_trans b (key x) a), All-not_below a b xs ge h.1)

  copy_until-between :
      (start end : K) (xs acc : List E)
      → IsSorted key xs
      → All (λ e. key e <? start ≡ false) xs
      → copy_until (λ e. end <? key e) xs acc ≡ acc ++ between start end xs
  unfolding copy_until
  copy_until-between start end [] acc s above = sym (append-nil acc)
  copy_until-between start end (x ∷ xs) acc s above = elim (Bool-cases (end <? key x)) [
    | inl stop ↦
        rw (stop, above.0, between_above start end xs (All-after end (key x) xs stop s.0))
          (sym (append-nil acc))
    | inr go ↦
        rw (go, above.0)
          (copy_until-between start end xs (acc ++ x ∷ []) s.1 above.1
            ∙ append_assoc acc (x ∷ []) (between start end xs))
  ]

  -- What stands from a place on: all the elements between the bounds, none below the first.
  abbrev pub FromHere : K → K → List E → ℕ → Type ℓ
  FromHere start end xs it =
      (between start end (drop it xs) ≡ between start end xs)
      × IsSorted key (drop it xs)
      × All (λ e. key e <? start ≡ false) (drop it xs)

  pub drop-lower_bound :
      (start end : K) (xs : List E)
      → IsSorted key xs
      → FromHere start end xs (lower_bound key start xs)
  unfolding lower_bound
  drop-lower_bound start end [] s = (refl, tt, tt)
  drop-lower_bound start end (x ∷ xs) s = elim (Bool-cases (key x <? start)) [
    | inl below ↦ rw below (drop-lower_bound start end xs s.1)
    | inr above ↦
        let here : lower_bound key start (x ∷ xs) ≡ 0 = rw above in
        subst (FromHere start end (x ∷ xs)) (sym here)
          (refl, s, (above, All-not_below start (key x) xs above s.0))
  ]

  -- On ascending keys the scan finds exactly the elements between the bounds.
  pub scan-between :
      (start end : K) (xs : List E)
      → IsSorted key xs
      → scan start end xs (lower_bound key start xs) ≡ between start end xs
  unfolding scan
  scan-between start end xs s =
      let it = lower_bound key start xs in
      let (found, sorted, above) = drop-lower_bound start end xs s in
      elim (Bool-cases (it == length xs)) [
        | inl none_left ↦
            let end_it : it ≡ length xs = ground arith in
            let empty : drop it xs ≡ [] = rw end_it (drop-length xs) in
            rw none_left (ap (between start end) (sym empty) ∙ found)
        | inr more ↦
            rw (more, step_back_stays start xs it (before_lower_bound start xs))
              (copy_until-between start end (drop it xs) [] sorted above ∙ found)
      ]
