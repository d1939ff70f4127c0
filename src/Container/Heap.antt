-- ===== src/Container/Heap.antt =====
-- `std::priority_queue`, which include/basket/priority_queue/priority_queue.cpp uses and the repository
-- does not hold: each operation by what the documentation says of the elements, in any order.
use mathlib.Core.List.Perm
use mathlib.Core.List.{Perm, Mem, forall_mem-cons, not-mem-nil}
use basket.Prelude.{
  ℕ, suc, ◌≡◌, refl, ap, false, if◌then◌else◌, arith, List, [], ◌∷◌, length, Bool-cases, inl, inr,
}
use basket.Container.Order.{Order, ◌<?◌}

-- No element is less than a later one.
abbrev pub Descending : {V : Type 0} ⦃o : Order V⦄ → List V → Type 0
Descending [] = Unit
Descending (x ∷ xs) = ((y : _) → Mem y xs → x <? y ≡ false) × Descending xs

pub record Heap (V : Type 0) ⦃o : Order V⦄ : Type 1 where
  pub T : Type 0
  pub elements : T → List V
  pub empty : T
  pub push : V → T → T
  pub top : T → V
  pub pop : T → T
  pub size : T → ℕ
  pub elements-empty : elements empty ≡ []
  pub elements-push : (v : V) (q : T) → Perm (elements (push v q)) (v ∷ elements q)
  pub top-greatest : (q : T) (v : V) → Mem v (elements q) → top q <? v ≡ false
  pub elements-pop :
      (q : T) (v : V) (vs : List V)
      → elements q ≡ v ∷ vs
      → Perm (top q ∷ elements (pop q)) (elements q)
  pub length-pop :
      (q : T) (v : V) (vs : List V)
      → elements q ≡ v ∷ vs
      → suc (length (elements (pop q))) ≡ length (elements q)
  pub size-length : (q : T) → size q ≡ length (elements q)

module _ {V : Type 0} ⦃o : Order V⦄ where
  -- The greatest of the elements `x` and `ys`, and the others.
  unfoldable pub split : V → List V → V × List V
  split x [] = (x, [])
  split x (y ∷ ys) =
      let (m, r) = split x ys in
      let (m', r') = split y ys in if x <? y then (m', x ∷ r') else (m, y ∷ r)

  split-perm : (x : V) (ys : List V) → Perm ((split x ys).0 ∷ (split x ys).1) (x ∷ ys)
  unfolding split
  split-perm x [] = Perm.refl (x ∷ [])
  split-perm x (y ∷ ys) = elim (Bool-cases (x <? y)) [
    | inl less ↦
        rw less
          (Perm.trans (Perm.swap x (split y ys).0 (split y ys).1) (Perm.cons x (split-perm y ys)))
    | inr not_less ↦ rw not_less (
        Perm.trans (Perm.swap y (split x ys).0 (split x ys).1)
          (Perm.trans (Perm.cons y (split-perm x ys)) (Perm.swap x y ys)))
  ]

  -- Nothing among `x` and `ys` is above `m`.
  abbrev Bounds : V → V → List V → Type 0
  Bounds m x ys = (v : V) → Mem v (x ∷ ys) → m <? v ≡ false

  Bounds-cons :
      (m x : V) (ys : List V)
      → m <? x ≡ false
      → ((v : V) → Mem v ys → m <? v ≡ false)
      → Bounds m x ys
  Bounds-cons m x ys h all = (forall_mem-cons (λ v. hlevel)).1 (h, all)

  split-greatest : (x : V) (ys : List V) → Bounds (split x ys).0 x ys
  unfolding split
  split-greatest x [] = Bounds-cons x x [] (o.lt_irrefl x) (λ v mem. absurd (not-mem-nil mem))
  split-greatest x (y ∷ ys) =
      let below_x = (forall_mem-cons (λ v. hlevel)).0 (split-greatest x ys) in
      let below_y = (forall_mem-cons (λ v. hlevel)).0 (split-greatest y ys) in
      elim (Bool-cases (x <? y)) [
        | inl less ↦
            let m = (split y ys).0 in
            let m_x : m <? x ≡ false = ground (arith, below_y.0, o.lt_trans m x y) in
            rw less (Bounds-cons m x (y ∷ ys) m_x (split-greatest y ys))
        | inr not_less ↦
            let m = (split x ys).0 in
            let m_y : m <? y ≡ false =
              ground (arith, below_x.0, o.lt_connex x y, o.lt_trans m y x) in
            rw not_less (Bounds-cons m x (y ∷ ys) below_x.0 (Bounds-cons m y ys m_y below_x.1))
      ]

  length-split : (x : V) (ys : List V) → length (split x ys).1 ≡ length ys
  unfolding split
  length-split x [] = refl
  length-split x (y ∷ ys) = elim (Bool-cases (x <? y)) [
    | inl less ↦ rw less (ap suc (length-split y ys))
    | inr not_less ↦ rw not_less (ap suc (length-split x ys))
  ]

  -- A list is such a priority queue; `fallback` is the top of an empty one.
  module _ (fallback : V) where
    unfoldable pub list_top : List V → V
    list_top [] = fallback
    list_top (x ∷ xs) = (split x xs).0

    unfoldable pub list_pop : List V → List V
    list_pop [] = []
    list_pop (x ∷ xs) = (split x xs).1

    pub list_top-greatest : (q : List V) (v : V) → Mem v q → list_top q <? v ≡ false
    unfolding list_top
    list_top-greatest [] v mem = absurd (not-mem-nil mem)
    list_top-greatest (x ∷ xs) v mem = split-greatest x xs v mem

    pub list_pop-perm :
        (q : List V) (v : V) (vs : List V) → q ≡ v ∷ vs → Perm (list_top q ∷ list_pop q) q
    unfolding list_top list_pop
    list_pop-perm q v vs e = rw e (split-perm v vs)

    pub length-list_pop :
        (q : List V) (v : V) (vs : List V) → q ≡ v ∷ vs → suc (length (list_pop q)) ≡ length q
    unfolding list_pop
    length-list_pop q v vs e = rw e (ap suc (length-split v vs))

    abbrev pub list_heap : Heap V
    list_heap = record {
      T = List V;
      elements = λ q. q;
      empty = [];
      push = λ v q. v ∷ q;
      top = list_top;
      pop = list_pop;
      size = length;
      elements-empty = refl;
      elements-push = λ v q. Perm.refl (v ∷ q);
      top-greatest = list_top-greatest;
      elements-pop = list_pop-perm;
      length-pop = length-list_pop;
      size-length = λ q. refl;
    }
