-- ===== src/PriorityQueue/Remote.antt =====
-- `basket::priority_queue` on every server of the configuration, from every caller.
use mathlib.Core.List.{Perm, Mem}
use basket.Prelude.{
  ℕ, ◌<◌, ◌≤◌, ◌^◌, ◌≡◌, refl, ap, ◌∙◌, true, false, ltb, arith, List, [], ◌∷◌, some, get_elem?,
  set, set-get_elem?, length, suc, codes,
}
use basket.Container.Order.{Order, ◌<?◌}
use basket.Container.Heap.{Heap}
use basket.Rpc.Names.{Dispatcher, Distinct}
use basket.Rpc.Cluster.{Handle, Handler, Node, RpcImplementation}
use basket.Rpc.Serve.{IsServing, Everywhere, server, on_segment_lem, route-on_segment}
use basket.Rpc.Wire.{Args, Reply, nothing, with_data, a_bool, a_value, as_bool, as_value}
use basket.Store
use basket.PriorityQueue.Defs.{
  local_push, local_pop, local_top, push_func, pop_func, top_func, bindings, construct, push, pop,
  top,
}
use basket.PriorityQueue.Order.{pop-top}

module _ {V : Type 0} ⦃o : Order V⦄ (std : Heap V) (mapped : V)
    (d : Dispatcher (Handler std.T (Args V V) (Reply V V))) (impl : RpcImplementation) (h : Handle)
    (nodes : List (Node d)) (serving : IsServing d (bindings std mapped impl) h nodes) where
  top-of_cons :
      (q : std.T) (v : V) (vs : List V)
      → std.elements q ≡ v ∷ vs
      → local_top std mapped q ≡ (q, (true, std.top q))
  unfolding local_top
  top-of_cons q v vs e =
      let some_left : ltb 0 (suc (length vs)) ≡ true = ground arith in
      rw (std.size-length q, e, some_left)

  -- Where the servers have their functions, `Push` to any of them succeeds from every caller, and
  -- adds the element to those there; no other server changes.
  pub push-perm :
      (v : V) (i : ℕ)
      → i < h.num_servers
      → (node : Node d) × (q : std.T) × (get_elem? nodes i ≡ some node)
        × (push std mapped d h v i nodes ≡ some (set nodes i (record node { segment = q }), true))
        × Perm (std.elements q) (v ∷ std.elements node.segment)
  unfolding push bindings push_func local_push
  push-perm v i lt =
      let op = local_push std mapped v in
      let (node, at) = server d serving i lt in
      (
        node,
        (op node.segment).0,
        at,
        route-on_segment d serving op (codes "_Push") (with_data v) a_bool as_bool
              (push_func std mapped) refl (λ s. refl) (λ b. refl) i lt
            ∙ on_segment_lem d op nodes i node at,
        std.elements-push v node.segment,
      )

  -- Where the servers have their functions, and one of them has an element, `Pop` from it
  -- succeeds from every caller: it returns the greatest element, which the server loses, and no
  -- other server changes. `Top` returns the same element and changes nothing.
  pub pop-greatest :
      (i : ℕ) (node : Node d) (x : V) (xs : List V)
      → i < h.num_servers
      → get_elem? nodes i ≡ some node
      → std.elements node.segment ≡ x ∷ xs
      → (v : V) × (q : std.T) × (pop std mapped d h i nodes
          ≡ some (set nodes i (record node { segment = q }), (true, v)))
        × (top std mapped d h i nodes ≡ some (nodes, (true, v)))
        × Perm (v ∷ std.elements q) (std.elements node.segment)
        × ((y : V) → Mem y (std.elements node.segment) → v <? y ≡ false)
  unfolding pop top bindings pop_func top_func
  pop-greatest i node x xs lt at e =
      let q = node.segment in
      let pops = local_pop std mapped in
      let tops = local_top std mapped in
      (
        std.top q,
        std.pop q,
        route-on_segment d serving pops (codes "_Pop") nothing a_value as_value
              (pop_func std mapped) refl (λ s. refl) (λ b. refl) i lt
            ∙ on_segment_lem d pops nodes i node at
            ∙ ap (λ r. some (set nodes i (record node { segment = r.0 }), r.1))
                (pop-top std mapped q x xs e),
        route-on_segment d serving tops (codes "_Top") nothing a_value as_value
              (top_func std mapped) refl (λ s. refl) (λ b. refl) i lt
            ∙ on_segment_lem d tops nodes i node at
            ∙ ap (λ r. some (set nodes i (record node { segment = r.0 }), r.1))
                (top-of_cons q x xs e)
            ∙ ap (λ l. some (l, (true, std.top q))) (set-get_elem? nodes i node at),
        std.elements-pop q x xs e,
        std.top-greatest q,
      )

module _ {V : Type 0} ⦃o : Order V⦄ (std : Heap V) (mapped : V)
    (d : Dispatcher (Handler std.T (Args V V) (Reply V V))) (impl : RpcImplementation) (h : Handle)
    (nodes : List (Node d)) where
  -- At most 2 ^ 16 servers that ran the constructor, each with a table that has no function under
  -- a name of the container, have their functions, and their queues are empty.
  pub priority_queue_construct-IsServing :
      length nodes ≡ h.num_servers
      → h.my_server < h.num_servers
      → h.num_servers ≤ 2 ^ 16
      → ((i : ℕ) (node : Node d)
          → get_elem? nodes i ≡ some node
          → (t : d.Table) × Store.IsFree d (bindings std mapped impl) h.func_prefix t
            × (node ≡ construct std mapped d impl h.func_prefix t))
      → IsServing d (bindings std mapped impl) h nodes
        × Everywhere d (λ q. std.elements q ≡ []) nodes
  unfolding construct bindings
  priority_queue_construct-IsServing width home fits starts =
      let bound = bindings std mapped impl in
      let distinct : Distinct bound = (refl, (refl, (refl, (refl, tt)))) in
      (
        Store.Starts-IsServing d bound h std.empty nodes width home fits distinct starts,
        Store.Starts-Everywhere d bound h std.empty nodes width home fits distinct starts
            (λ q. std.elements q ≡ []) std.elements-empty,
      )
