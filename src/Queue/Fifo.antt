-- ===== src/Queue/Fifo.antt =====
-- The order of `LocalPush` and `LocalPop` of `basket::queue`.
use basket.Prelude.{
  ℕ, zero, suc, ◌≡◌, refl, ap, sym, ◌∙◌, Bool, true, false, ltb, arith, List, [], ◌∷◌, ◌++◌, map,
  append-nil, append_assoc, length, drop,
}
use basket.Container.Deque.{Deque}
use basket.Queue.Defs.{local_push, local_pop}

module _ {V : Type 0} (boost : Deque V) (mapped : V) where
  open boost use {T, items}

  -- What a pop returns for a sequence of items.
  abbrev pub front_of : List V → Bool × V
  front_of [] = (false, mapped)
  front_of (v ∷ vs) = (true, v)

  pub pop_by :
      (q : T) (vs : List V)
      → items q ≡ vs
      → ((local_pop boost mapped q).1 ≡ front_of vs)
        × (items (local_pop boost mapped q).0 ≡ drop 1 vs)
  unfolding local_pop
  pop_by q [] e = rw (boost.size-length q, e) (refl, e)
  pop_by q (v ∷ vs) e =
      let some_left : ltb 0 (suc (length vs)) ≡ true = ground arith in
      rw (boost.size-length q, e, some_left)
        (ap (λ x. (true, x)) (boost.front-items q v vs e), boost.items-pop_front q v vs e)

  -- Pushes one after the other.
  abbrev pub push_all : List V → T → T
  push_all [] q = q
  push_all (v ∷ vs) q = push_all vs (local_push boost mapped v q).0

  -- Pops one after the other, with what each returns.
  abbrev pub pop_times : ℕ → T → T × List (Bool × V)
  pop_times zero q = (q, [])
  pop_times (suc n) q =
      let (q', r) = local_pop boost mapped q in let (q'', rs) = pop_times n q' in (q'', r ∷ rs)

  items-push_all : (vs : List V) (q : T) → items (push_all vs q) ≡ items q ++ vs
  unfolding local_push
  items-push_all [] q = sym (append-nil (items q))
  items-push_all (v ∷ vs) q =
      items-push_all vs (boost.push_back v q)
      ∙ ap (λ l. l ++ vs) (boost.items-push_back v q)
      ∙ append_assoc (items q) (v ∷ []) vs

  pop_times-items :
      (q : T) (vs : List V)
      → items q ≡ vs
      → ((pop_times (length vs) q).1 ≡ map (λ v. (true, v)) vs)
        × (items (pop_times (length vs) q).0 ≡ [])
  pop_times-items q [] e = (refl, e)
  pop_times-items q (v ∷ vs) e =
      let (first, left) = pop_by q (v ∷ vs) e in
      let (rest, none_left) = pop_times-items (local_pop boost mapped q).0 vs left in
      (rw (first, rest), none_left)

  -- Whatever is pushed, as many pops as there are items then return the old items and the new ones
  -- in their order, and the next pop reports an empty queue.
  pub pops-of_pushes :
      (vs : List V) (q : T)
      → let n = length (items q ++ vs) in
        ((pop_times n (push_all vs q)).1 ≡ map (λ v. (true, v)) (items q ++ vs))
        × ((local_pop boost mapped (pop_times n (push_all vs q)).0).1 ≡ (false, mapped))
  pops-of_pushes vs q =
      let (returned, none_left) =
        pop_times-items (push_all vs q) (items q ++ vs) (items-push_all vs q) in
      (returned, (pop_by _ [] none_left).0)
