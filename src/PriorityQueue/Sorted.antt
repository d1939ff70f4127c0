-- ===== src/PriorityQueue/Sorted.antt =====
-- A priority queue as the list of its elements from the greatest to the least.
use mathlib.Core.Nat as Unary
use mathlib.Core.List as Core
use mathlib.Core.List.Perm
use mathlib.Core.List.{Perm, Mem, mem-cons_of_mem, mem-cons_self, forall_mem-cons, not-mem-nil}
use basket.Prelude.{
  ℕ, suc, ◌≡◌, refl, ap, sym, subst, ◌∙◌, Bool, true, false, if◌then◌else◌, ltb, arith, List, [],
  ◌∷◌, length, drop, Bool-cases, inl, inr,
}
use basket.Container.Order.{Order, ◌<?◌, lt_asymm}
use basket.Container.Heap.{Heap, Descending}
use basket.PriorityQueue.Defs.{local_pop, local_top, local_size}

abbrev native : Unary.ℕ → ℕ
native Unary.zero = 0
native (Unary.suc n) = suc (native n)

native-length : {V : Type 0} → (xs : List V) → native (Core.length xs) ≡ length xs
native-length [] = refl
native-length (x ∷ xs) = ap suc (native-length xs)

length-perm : {V : Type 0} → {xs ys : List V} → Perm xs ys → length xs ≡ length ys
length-perm {xs = xs} {ys = ys} p =
    sym (native-length xs) ∙ ap native (Perm.length-eq p) ∙ native-length ys

module _ {V : Type 0} ⦃o : Order V⦄ where
  -- Before the first element that is less.
  abbrev pub insert_sorted : V → List V → List V
  insert_sorted v [] = v ∷ []
  insert_sorted v (x ∷ xs) =
      let rest = insert_sorted v xs in if x <? v then v ∷ x ∷ xs else x ∷ rest

  pub insert_sorted-perm : (v : V) (xs : List V) → Perm (insert_sorted v xs) (v ∷ xs)
  insert_sorted-perm v [] = Perm.refl (v ∷ [])
  insert_sorted-perm v (x ∷ xs) = elim (Bool-cases (x <? v)) [
    | inl less ↦ rw less (Perm.refl (v ∷ x ∷ xs))
    | inr not_less ↦
        rw not_less (Perm.trans (Perm.cons x (insert_sorted-perm v xs)) (Perm.swap v x xs))
  ]

  insert_sorted-Descending : (v : V) (xs : List V) → Descending xs → Descending (insert_sorted v xs)
  insert_sorted-Descending v [] _ = ((λ y mem. absurd (not-mem-nil mem)), tt)
  insert_sorted-Descending v (x ∷ xs) (above, rest) = elim (Bool-cases (x <? v)) [
    | inl less ↦ rw less (
      (forall_mem-cons (λ y. hlevel)).1
          (lt_asymm x v less, λ y mem. ground (arith, above y mem, o.lt_trans x v y)),
      (above, rest),
    )
    | inr not_less ↦
        let all : (y : V) → Mem y (v ∷ xs) → x <? y ≡ false =
          (forall_mem-cons (λ y. hlevel)).1 (not_less, above) in
        rw not_less (
          (λ y mem. all y ((Perm.mem_iff (insert_sorted-perm v xs)).0 mem)),
          insert_sorted-Descending v xs rest,
        )
  ]

module _ {V : Type 0} ⦃o : Order V⦄ (std : Heap V) (mapped : V) where
  open std use {T, elements}

  -- The queue has the elements of the list, which goes from the greatest to the least.
  abbrev pub Lists : T → List V → Type 0
  Lists q xs = Perm (elements q) xs × Descending xs

  abbrev pub first_of : List V → Bool × V
  first_of [] = (false, mapped)
  first_of (x ∷ xs) = (true, x)

  nonempty :
      (q : T) (x : V) (xs ys : List V)
      → elements q ≡ ys
      → Perm ys (x ∷ xs)
      → (y : V) × (zs : List V) × (elements q ≡ y ∷ zs)
  nonempty q x xs [] e p = absurd (omega (arith, length-perm p))
  nonempty q x xs (y ∷ zs) e p = (y, zs, e)

  -- The top is the first element, and the others are left.
  top-first :
      (q : T) (x : V) (xs : List V) → Lists q (x ∷ xs) → (std.top q ≡ x) × Lists (std.pop q) xs
  top-first q x xs (perm, (above, rest)) =
      let (y, zs, e) = nonempty q x xs (elements q) refl perm in
      let split = std.elements-pop q y zs e in
      let among : Mem (std.top q) (x ∷ xs) =
        (Perm.mem_iff (Perm.trans split perm)).0 mem-cons_self in
      let below = std.top-greatest q x ((Perm.mem_iff perm).1 mem-cons_self) in
      let all : (y : V) → Mem y (x ∷ xs) → x <? y ≡ false =
        (forall_mem-cons (λ y. hlevel)).1 (o.lt_irrefl x, above) in
      let same : std.top q ≡ x = o.lt_connex (std.top q) x below (all (std.top q) among) in
      (
        same,
        (
          Perm.cons_inv
              (subst (λ v. Perm (v ∷ elements (std.pop q)) (x ∷ xs)) same (Perm.trans split perm)),
          rest,
        ),
      )

  module _ (q : T) where
    pub push-Lists : (v : V) (xs : List V) → Lists q xs → Lists (std.push v q) (insert_sorted v xs)
    push-Lists v xs (perm, descending) = (
      Perm.trans (std.elements-push v q)
          (Perm.trans (Perm.cons v perm) (Perm.symm (insert_sorted-perm v xs))),
      insert_sorted-Descending v xs descending,
    )

    empty-Lists : Lists q [] → std.size q ≡ 0
    empty-Lists (perm, _) = std.size-length q ∙ length-perm perm

    pub pop-Lists :
        (xs : List V)
        → Lists q xs
        → ((local_pop std mapped q).1 ≡ first_of xs) × Lists (local_pop std mapped q).0 (drop 1 xs)
    unfolding local_pop
    pop-Lists [] held = rw (empty-Lists held) (refl, held)
    pop-Lists (x ∷ xs) held =
        let (same, left) = top-first q x xs held in
        let some_left : ltb 0 (suc (length xs)) ≡ true = ground arith in
        rw (std.size-length q, length-perm held.0, some_left) (ap (λ v. (true, v)) same, left)

    pub top-Lists : (xs : List V) → Lists q xs → local_top std mapped q ≡ (q, first_of xs)
    unfolding local_top
    top-Lists [] held = rw (empty-Lists held) refl
    top-Lists (x ∷ xs) held =
        let (same, left) = top-first q x xs held in
        let some_left : ltb 0 (suc (length xs)) ≡ true = ground arith in
        rw (std.size-length q, length-perm held.0, some_left) (ap (λ v. (q, (true, v))) same)

    pub size-Lists : (xs : List V) → Lists q xs → local_size std mapped q ≡ (q, length xs)
    unfolding local_size
    size-Lists xs (perm, _) = ap (λ n. (q, n)) (std.size-length q ∙ length-perm perm)
