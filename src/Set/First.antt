-- ===== src/Set/First.antt =====
-- `SeekFirst`, `PopFirst`, `SeekFirstN` and `Size` of `basket::set`.
use basket.Prelude.{
  ℕ, zero, suc, ◌+◌, ◌<◌, ◌≡◌, refl, ap, ◌∙◌, Bool, true, false, ltb, arith, List, [], ◌∷◌, ◌++◌,
  append-nil, append_assoc, some, get_elem?, set, take, drop, length, codes,
}
use basket.Container.Order.{Order}
use basket.Container.Entries.{erase_at}
use basket.Rpc.Names.{Dispatcher}
use basket.Rpc.Cluster.{Handle, Handler, Node, RpcImplementation}
use basket.Rpc.Serve.{IsServing, server, route-on_segment, on_segment_lem, on_segment_read}
use basket.Rpc.Wire.{Args, Reply, nothing, a_key, as_key}
use basket.Set.Defs.{
  MySet, first_n, local_seek_first, local_pop_first, local_seek_first_n, seek_first_func,
  pop_first_func, bindings, seek_first, pop_first,
}

module _ {ℓ} {K : Type ℓ} where
  -- The loop with `r` rounds to go takes the next `r` keys.
  first_n-take :
      (xs : List K) (r i n : ℕ) (acc : List K)
      → n ≡ i + r
      → first_n xs i n acc ≡ (i + length (take r xs), acc ++ take r xs)
  unfolding first_n
  first_n-take [] zero i n acc h = let same : i + 0 ≡ i = omega arith in rw (append-nil, same)
  first_n-take [] (suc r) i n acc h = let same : i + 0 ≡ i = omega arith in rw (append-nil, same)
  first_n-take (x ∷ xs) zero i n acc h =
      let stop : ltb i n ≡ false = ground arith in
      let same : i + 0 ≡ i = omega arith in rw (stop, append-nil, same)
  first_n-take (x ∷ xs) (suc r) i n acc h =
      let go : ltb i n ≡ true = ground arith in
      let count : i + 1 + length (take r xs) ≡ i + suc (length (take r xs)) = omega arith in
      rw (go, first_n-take xs r (i + 1) n (acc ++ x ∷ []) (omega (arith, h)), append_assoc, count)

module _ {K : Type 0} ⦃o : Order K⦄ (boost : MySet K) (fallback : K) where
  open boost use {T, elements}

  -- What `SeekFirst` and `PopFirst` return for a sequence of keys.
  abbrev pub first_of : List K → Bool × K
  first_of [] = (false, fallback)
  first_of (x ∷ xs) = (true, x)

  -- `LocalSeekFirst` returns the head of the sequence and leaves the set as it was.
  pub seek_first-head : (m : T) → local_seek_first boost fallback m ≡ (m, first_of (elements m))
  unfolding local_seek_first
  seek_first-head m = first_by (elements m) refl
    where
      first_by :
          (xs : List K) → elements m ≡ xs → local_seek_first boost fallback m ≡ (m, first_of xs)
      first_by [] e = rw (boost.size-length m, e)
      first_by (x ∷ xs) e =
          let some_left : ltb 0 (suc (length xs)) ≡ true = ground arith in
          rw (boost.size-length m, e, some_left)

  -- `LocalPopFirst` returns the head of the sequence, and leaves its tail.
  pub pop_first-head :
      (m : T)
      → ((local_pop_first boost fallback m).1 ≡ first_of (elements m))
        × (elements (local_pop_first boost fallback m).0 ≡ drop 1 (elements m))
  unfolding local_pop_first
  pop_first-head m = pop_by (elements m) refl
    where
      pop_by :
          (xs : List K)
          → elements m ≡ xs
          → ((local_pop_first boost fallback m).1 ≡ first_of xs)
            × (elements (local_pop_first boost fallback m).0 ≡ drop 1 xs)
      pop_by [] e = rw (boost.size-length m, e) (refl, e)
      pop_by (x ∷ xs) e =
          let some_left : ltb 0 (suc (length xs)) ≡ true = ground arith in
          rw (boost.size-length m, e, some_left)
            (refl, boost.elements-erase 0 m ∙ ap (erase_at 0) e)

  -- `LocalSeekFirstN` returns the first `n` keys, or all where there are fewer, leaves the set as it
  -- was, and says whether it returns any.
  pub seek_first_n-take :
      (n : ℕ) (m : T)
      → local_seek_first_n boost fallback n m
        ≡ (m, (ltb 0 (length (take n (elements m))), take n (elements m)))
  unfolding local_seek_first_n
  seek_first_n-take n m =
      let from_zero : 0 + length (take n (elements m)) ≡ length (take n (elements m)) =
        omega arith in
      rw (first_n-take (elements m) n 0 n [] (omega arith), from_zero)

module _ {K : Type 0} ⦃o : Order K⦄ (boost : MySet K) (fallback : K)
    (d : Dispatcher (Handler boost.T (Args K K) (Reply K K))) (impl : RpcImplementation)
    (h : Handle) (nodes : List (Node d))
    (serving : IsServing d (bindings boost fallback impl) h nodes) where
  -- Where the servers have their functions, `PopFirst` of any of them succeeds from every caller:
  -- it returns the first key of that server's set, or the flag `false` for an empty one, the set
  -- loses that key, and no other server changes.
  pub pop_first-on_server :
      (i : ℕ)
      → i < h.num_servers
      → (node : Node d) × (s : boost.T) × (get_elem? nodes i ≡ some node)
        × (pop_first boost fallback d h i nodes
            ≡ some (
              set nodes i (record node { segment = s }),
              first_of boost fallback (boost.elements node.segment),
            ))
        × (boost.elements s ≡ drop 1 (boost.elements node.segment))
  unfolding pop_first bindings pop_first_func
  pop_first-on_server i lt =
      let op = local_pop_first boost fallback in
      let (node, at) = server d serving i lt in
      let (returned, left) = pop_first-head boost fallback node.segment in
      (
        node,
        (op node.segment).0,
        at,
        route-on_segment d serving op (codes "_PopFirst") nothing a_key as_key
              (pop_first_func boost fallback) refl (λ s. refl) (λ b. refl) i lt
            ∙ on_segment_lem d op nodes i node at
            ∙ ap (λ r. some (set nodes i (record node { segment = (op node.segment).0 }), r))
                returned,
        left,
      )

  -- Where the servers have their functions, `SeekFirst` of any of them succeeds from every
  -- caller, returns the first key of that server's set, or the flag `false` for an empty one, and
  -- changes nothing.
  pub seek_first-on_server :
      (i : ℕ)
      → i < h.num_servers
      → (node : Node d) × (get_elem? nodes i ≡ some node)
        × (seek_first boost fallback d h i nodes
            ≡ some (nodes, first_of boost fallback (boost.elements node.segment)))
  unfolding seek_first bindings seek_first_func
  seek_first-on_server i lt =
      let op = local_seek_first boost fallback in
      let (node, at) = server d serving i lt in
      (
        node,
        at,
        route-on_segment d serving op (codes "_SeekFirst") nothing a_key as_key
              (seek_first_func boost fallback) refl (λ s. refl) (λ b. refl) i lt
            ∙ on_segment_read d op nodes i node at
                (λ m. ap (λ r. r.0) (seek_first-head boost fallback m))
            ∙ ap (λ r. some (nodes, r.1)) (seek_first-head boost fallback node.segment),
      )
