-- ===== src/Container/Entries/Laws.antt =====
-- The laws of the sequences: what each operation does to every key, and that keys stay ascending.
use basket.Prelude.{
  ℕ, zero, suc, ◌≡◌, refl, true, if◌then◌else◌, arith, List, [], ◌∷◌, All, none, some, get_elem?,
  length, inl, inr, is_some, ltb, ap, sym, ◌∙◌, get_elem?-length, subst,
}
use mathlib.Core.Option.{some-injective}
use basket.Container.Order.{Order, ◌<?◌, same, lt_asymm}
use basket.Container.Entries.{assign, insert, remove, count, lookup, IsSorted, Finds, erase_at}

module _ {ℓ} {E K : Type ℓ} (key : E → K) ⦃o : Order K⦄ where
  -- The relations between two keys, and a third.
  pub lookup-assign :
      (j : K) (e : E) (xs : List E)
      → lookup key j (assign key e xs) ≡ (if same (key e) j then some e else lookup key j xs)
  unfolding lookup assign
  lookup-assign j e [] = refl
  lookup-assign j e (x ∷ xs) = ground (
    arith,
    lookup-assign j e xs,
    o.lt_connex (key e) (key x),
    o.lt_connex (key x) j,
    o.lt_irrefl (key e),
    o.lt_irrefl j,
  )

  pub lookup-remove :
      (j k : K) (xs : List E)
      → lookup key j (remove key k xs) ≡ (if same k j then none else lookup key j xs)
  unfolding lookup remove
  lookup-remove j k [] = ground arith
  lookup-remove j k (x ∷ xs) = ground (
    arith,
    lookup-remove j k xs,
    o.lt_connex (key x) k,
    o.lt_connex (key x) j,
    o.lt_connex k j,
    o.lt_irrefl j,
  )

  pub count-is_some : (k : K) (xs : List E) → ltb 0 (count key k xs) ≡ is_some (lookup key k xs)
  unfolding count lookup
  count-is_some k [] = refl
  count-is_some k (x ∷ xs) = ground (arith, count-is_some k xs)

  pub All-assign {κ} :
      (P : E → Type κ) (e : E) (xs : List E) → P e → All P xs → All P (assign key e xs)
  unfolding assign
  All-assign P e [] p h = (p, tt)
  All-assign P e (x ∷ xs) p h = ground (arith, All-assign P e xs)

  pub All-remove {κ} : (P : E → Type κ) (k : K) (xs : List E) → All P xs → All P (remove key k xs)
  unfolding remove
  All-remove P k [] h = tt
  All-remove P k (x ∷ xs) h = ground (arith, All-remove P k xs)

  All-above :
      (a b : K) (xs : List E)
      → a <? b ≡ true
      → All (λ y. b <? key y ≡ true) xs
      → All (λ y. a <? key y ≡ true) xs
  All-above a b [] lt h = tt
  All-above a b (x ∷ xs) lt h = (o.lt_trans a b (key x) lt h.0, All-above a b xs lt h.1)

  All-same :
      (a b : K) (xs : List E)
      → a ≡ b
      → All (λ y. b <? key y ≡ true) xs
      → All (λ y. a <? key y ≡ true) xs
  All-same a b xs e h = subst (λ k. All (λ y. k <? key y ≡ true) xs) (sym e) h

  pub IsSorted-assign : (e : E) (xs : List E) → IsSorted key xs → IsSorted key (assign key e xs)
  unfolding assign
  IsSorted-assign e [] h = (tt, tt)
  IsSorted-assign e (x ∷ xs) h = ground (
    arith,
    IsSorted-assign e xs,
    All-above (key e) (key x) xs,
    All-same (key e) (key x) xs,
    All-assign (λ y. key x <? key y ≡ true) e xs,
    o.lt_connex (key e) (key x),
  )

  pub IsSorted-remove : (k : K) (xs : List E) → IsSorted key xs → IsSorted key (remove key k xs)
  unfolding remove
  IsSorted-remove k [] h = tt
  IsSorted-remove k (x ∷ xs) h =
      ground (arith, IsSorted-remove k xs, All-remove (λ y. key x <? key y ≡ true) k xs)

  All-get_elem? {κ} :
      (P : E → Type κ) (xs : List E) (i : ℕ) (e : E) → All P xs → get_elem? xs i ≡ some e → P e
  All-get_elem? P [] i e all h = cc
  All-get_elem? P (x ∷ xs) zero e all h = subst P (some-injective _ _ h) all.0
  All-get_elem? P (x ∷ xs) (suc i) e all h = All-get_elem? P xs i e all.1 h

  absent_above : (k : K) (xs : List E) → All (λ y. k <? key y ≡ true) xs → count key k xs ≡ 0
  unfolding count
  absent_above k [] h = refl
  absent_above k (x ∷ xs) h = ground (arith, absent_above k xs, lt_asymm k (key x))

  -- With ascending keys the iterator of `find` stands at the one element with the key.
  pub Finds-lookup :
      (k : K) (xs : List E) (i : ℕ)
      → IsSorted key xs
      → Finds key k xs i
      → get_elem? xs i ≡ lookup key k xs
  unfolding count lookup
  Finds-lookup k [] i s (inl (e, at, eq)) = cc
  Finds-lookup k [] i s (inr (at, none_left)) = refl
  Finds-lookup k (x ∷ xs) zero s (inl (e, at, eq)) = ground (arith, o.lt_irrefl k)
  Finds-lookup k (x ∷ xs) (suc i) s (inl (e, at, eq)) =
      let above : key x <? k ≡ true =
        subst (λ j. key x <? j ≡ true) eq
          (All-get_elem? (λ y. key x <? key y ≡ true) xs i e s.0 at) in
      rw above (Finds-lookup k xs i s.1 (inl (e, at, eq)))
  Finds-lookup k (x ∷ xs) i s (inr (at, none_left)) =
      let past : get_elem? (x ∷ xs) i ≡ none = rw at (get_elem?-length xs) in
      let rest = Finds-lookup k xs (length xs) s.1 in
      ground (arith, rest (inr (refl, ground arith)), get_elem?-length xs)

  -- Erasing at the place of a key, and inserting a key that is not there.
  pub remove_absent : (k : K) (xs : List E) → count key k xs ≡ 0 → remove key k xs ≡ xs
  unfolding remove count
  remove_absent k [] h = refl
  remove_absent k (x ∷ xs) h = ground (arith, remove_absent k xs)

  pub count-remove : (k : K) (xs : List E) → count key k (remove key k xs) ≡ 0
  unfolding remove count
  count-remove k [] = refl
  count-remove k (x ∷ xs) = ground (arith, count-remove k xs)

  pub erase_at-remove :
      (k : K) (xs : List E) (i : ℕ) (e : E)
      → IsSorted key xs
      → get_elem? xs i ≡ some e
      → key e ≡ k
      → erase_at i xs ≡ remove key k xs
  unfolding remove
  erase_at-remove k [] i e s at eq = refl
  erase_at-remove k (x ∷ xs) zero e s at eq =
      let here : key x ≡ k = ap key (some-injective _ _ at) ∙ eq in
      let above : All (λ y. k <? key y ≡ true) xs =
        subst (λ j. All (λ y. j <? key y ≡ true) xs) here s.0 in
      ground (arith, remove_absent k xs, absent_above k xs, o.lt_irrefl k)
  erase_at-remove k (x ∷ xs) (suc i) e s at eq =
      let above : key x <? k ≡ true =
        subst (λ j. key x <? j ≡ true) eq
          (All-get_elem? (λ y. key x <? key y ≡ true) xs i e s.0 at) in
      rw above (ap (λ l. x ∷ l) (erase_at-remove k xs i e s.1 at eq))

  pub insert-assign :
      (e : E) (xs : List E) → count key (key e) xs ≡ 0 → insert key e xs ≡ assign key e xs
  unfolding insert assign count
  insert-assign e [] h = refl
  insert-assign e (x ∷ xs) h = ground (arith, insert-assign e xs)

  assign_front :
      (e : E) (xs : List E) → All (λ y. key e <? key y ≡ true) xs → assign key e xs ≡ e ∷ xs
  unfolding assign
  assign_front e [] h = refl
  assign_front e (x ∷ xs) h = ground arith

  pub assign-remove :
      (e : E) (xs : List E)
      → IsSorted key xs
      → assign key e (remove key (key e) xs) ≡ assign key e xs
  unfolding remove assign
  assign-remove e [] s = refl
  assign-remove e (x ∷ xs) s = ground (
    arith,
    assign-remove e xs s.1,
    remove_absent (key e) xs,
    absent_above (key e) xs,
    All-above (key e) (key x) xs,
    All-same (key e) (key x) xs,
    o.lt_connex (key e) (key x),
    assign_front e xs,
    o.lt_irrefl (key x),
  )
