-- ===== src/PriorityQueue/Order.antt =====
-- The order of the pops of `basket::priority_queue`.
use mathlib.Core.List.Perm
use mathlib.Core.List.{Perm, mem-cons_of_mem}
use basket.Prelude.{ℕ, zero, suc, ◌≡◌, refl, ap, Bool, true, ltb, arith, List, [], ◌∷◌, map, length}
use basket.Container.Order.{Order}
use basket.Container.Heap.{Heap, Descending}
use basket.PriorityQueue.Defs.{local_pop}

module _ {V : Type 0} ⦃o : Order V⦄ (std : Heap V) (mapped : V) where
  open std use {T, elements}

  -- Pops one after the other, with what each returns.
  abbrev pub pop_times : ℕ → T → T × List (Bool × V)
  pop_times zero q = (q, [])
  pop_times (suc n) q =
      let (q', r) = local_pop std mapped q in let (q'', rs) = pop_times n q' in (q'', r ∷ rs)

  pub pop-top :
      (q : T) (v : V) (vs : List V)
      → elements q ≡ v ∷ vs
      → local_pop std mapped q ≡ (std.pop q, (true, std.top q))
  unfolding local_pop
  pop-top q v vs e =
      let some_left : ltb 0 (suc (length vs)) ≡ true = ground arith in
      rw (std.size-length q, e, some_left)

  -- What `n` pops of a queue of `n` elements return.
  abbrev pub Drained : ℕ → T → Type 0
  Drained n q =
      (vs : List V) × ((pop_times n q).1 ≡ map (λ v. (true, v)) vs)
      × Perm vs (elements q)
      × Descending vs
      × (elements (pop_times n q).0 ≡ [])

  -- As many pops as a priority queue has elements return all of them, each as often as it is
  -- there, none less than a later one, and leave the queue empty.
  pub pops-Descending : (n : ℕ) (q : T) → length (elements q) ≡ n → Drained n q
  pops-Descending n q h = drain n q (elements q) refl h
    where
      drain : (n : ℕ) (q : T) (xs : List V) → elements q ≡ xs → length xs ≡ n → Drained n q
      drain zero q [] e h = ([], refl, rw e (Perm.refl []), tt, e)
      drain zero q (x ∷ xs) e h = absurd (omega (arith, h))
      drain (suc n) q [] e h = absurd (omega (arith, h))
      drain (suc n) q (x ∷ xs) e h =
          let left : T = std.pop q in
          let count : length (elements left) ≡ n =
            omega (arith, std.length-pop q x xs e, ap length e, h) in
          let (vs, returned, perm, descending, empty) = drain n left (elements left) refl count in
          let all : Perm (std.top q ∷ vs) (elements q) =
            Perm.trans (Perm.cons (std.top q) perm) (std.elements-pop q x xs e) in
          (
            std.top q ∷ vs,
            rw (pop-top q x xs e) (ap (λ l. (true, std.top q) ∷ l) returned),
            all,
            (
              (λ y mem.
                  std.top-greatest q y ((Perm.mem_iff all).0 (mem-cons_of_mem (std.top q) mem))),
              descending,
            ),
            rw (pop-top q x xs e) empty,
          )
