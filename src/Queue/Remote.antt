-- ===== src/Queue/Remote.antt =====
-- `basket::queue` on every server of the configuration, from every caller.
use basket.Prelude.{
  ℕ, ◌<◌, ◌≤◌, ◌^◌, ◌%◌, ◌≡◌, refl, ap, sym, ◌∙◌, true, false, ◌==◌, ◌&&◌, arith, List, [], ◌∷◌,
  ◌++◌, Option, none, some, get_elem?, set, drop, length, codes, Bool-cases, inl, inr,
}
use basket.Container.Deque.{Deque}
use basket.Rpc.Names.{Dispatcher, Distinct}
use basket.Rpc.Cluster.{Handle, Handler, Node, call, remote, RpcImplementation}
use basket.Rpc.Serve.{
  IsServing, Everywhere, server, on_segment_lem, on_segment_read, route-on_segment,
}
use basket.Rpc.Wire.{
  Args, Reply, nothing, with_data, a_bool, a_size, a_value, as_bool, as_size, as_value,
}
use basket.Store
use basket.Queue.Defs.{
  local_push, local_pop, local_size, push_func, pop_func, size_func, wait_for_element_func,
  bindings, construct, wait_on_segment, wait_for_element, push, pop, size,
}
use basket.Queue.Fifo.{front_of, pop_by}
use basket.Queue.Wait.{wait-first}

module _ {V : Type 0} (boost : Deque V) (mapped : V) (polls : ℕ) (others : boost.T → ℕ → boost.T)
    (d : Dispatcher (Handler boost.T (Args V V) (Reply V V))) (impl : RpcImplementation)
    (h : Handle) (nodes : List (Node d)) where
  -- Server `i` goes from the items `before` to the items `after`, no other server changes, and the
  -- operation returns `b`.
  abbrev pub Moves : {B : Type 0} → Option (List (Node d) × B) → ℕ → List V → List V → B → Type 0
  Moves r i before after b =
      (node : Node d) × (q : boost.T) × (get_elem? nodes i ≡ some node)
      × (boost.items node.segment ≡ before)
      × (r ≡ some (set nodes i (record node { segment = q }), b))
      × (boost.items q ≡ after)

  -- The items of a server.
  abbrev pub queue_at : Option (Node d) → List V
  queue_at none = []
  queue_at (some node) = boost.items node.segment

  module _ (serving : IsServing d (bindings boost mapped polls others impl) h nodes) where
    -- Where the servers have their functions, `Push` to any of them succeeds from every caller,
    -- and puts the item behind the others there; no other server changes.
    pub push-Moves :
        (v : V) (i : ℕ)
        → i < h.num_servers
        → Moves
            (push boost mapped d h v i nodes)
            i
            (queue_at (get_elem? nodes i))
            (queue_at (get_elem? nodes i) ++ v ∷ [])
            true
    unfolding push bindings push_func local_push
    push-Moves v i lt =
        let op = local_push boost mapped v in
        let (node, at) = server d serving i lt in
        (
          node,
          (op node.segment).0,
          at,
          rw at,
          route-on_segment d serving op (codes "_Push") (with_data v) a_bool as_bool
                (push_func boost mapped) refl (λ s. refl) (λ b. refl) i lt
              ∙ on_segment_lem d op nodes i node at,
          boost.items-push_back v node.segment ∙ rw at,
        )

    -- Where the servers have their functions, `Pop` from any of them succeeds from every caller:
    -- it returns the front item there, which the server loses, or reports that there is none; no
    -- other server changes.
    pub pop-Moves :
        (i : ℕ)
        → i < h.num_servers
        → Moves
            (pop boost mapped d h i nodes)
            i
            (queue_at (get_elem? nodes i))
            (drop 1 (queue_at (get_elem? nodes i)))
            (front_of boost mapped (queue_at (get_elem? nodes i)))
    unfolding pop bindings pop_func
    pop-Moves i lt =
        let op = local_pop boost mapped in
        let (node, at) = server d serving i lt in
        let (returned, left) = pop_by boost mapped node.segment (boost.items node.segment) refl in
        (
          node,
          (op node.segment).0,
          at,
          rw at,
          route-on_segment d serving op (codes "_Pop") nothing a_value as_value
                (pop_func boost mapped) refl (λ s. refl) (λ b. refl) i lt
              ∙ on_segment_lem d op nodes i node at
              ∙ rw at (
                  ap (λ r. some (set nodes i (record node { segment = (op node.segment).0 }), r))
                    returned),
          rw at left,
        )

    -- `Size` of a server returns how many items it has, and changes nothing.
    pub size-length_at :
        (i : ℕ)
        → i < h.num_servers
        → size boost mapped d h i nodes ≡ some (nodes, length (queue_at (get_elem? nodes i)))
    unfolding size bindings size_func local_size
    size-length_at i lt =
        let op = local_size boost mapped in
        let (node, at) = server d serving i lt in
        route-on_segment d serving op (codes "_Size") nothing a_size as_size
          (size_func boost mapped) refl (λ s. refl) (λ b. refl) i lt
        ∙ on_segment_read d op nodes i node at (λ s. refl)
        ∙ ap (λ n. some (nodes, n)) (boost.size-length node.segment)
        ∙ ap (λ o. some (nodes, length (queue_at o))) (sym at)

    -- Where the servers have their functions, and poll `n` of a server's queue is the first to
    -- find an item, `WaitForElement` of that server succeeds from every caller with more than `n`
    -- polls, and leaves the queue that this poll saw.
    pub wait_for_element-first :
        (i n : ℕ) (node : Node d)
        → i < h.num_servers
        → get_elem? nodes i ≡ some node
        → n < polls
        → ((m : ℕ) → m < n → boost.size (others node.segment m) ≡ 0)
        → (boost.size (others node.segment n) == 0) ≡ false
        → wait_for_element boost mapped polls others d h i nodes
          ≡ some (set nodes i (record node { segment = others node.segment n }), true)
    unfolding wait_for_element wait_on_segment remote call bindings wait_for_element_func
    wait_for_element-first i n node lt at patient before now =
        let ends = wait-first boost mapped (others node.segment) polls n patient before now in
        let bound =
          serving.serves i node at (codes "_WaitForElement")
            (wait_for_element_func boost mapped polls others) refl in
        elim (Bool-cases (i == h.my_server && h.server_on_node)) [
          | inl near ↦ rw (near, at, ends)
          | inr far ↦
              let index : i % 2 ^ 16 ≡ i = omega (arith, lt, serving.fits) in
              rw (far, index, at, bound, ends)
        ]

  -- At most 2 ^ 16 servers that ran the constructor, each with a table that has no function under
  -- a name of the container, have their functions, and their queues are empty.
  pub queue_construct-IsServing :
      length nodes ≡ h.num_servers
      → h.my_server < h.num_servers
      → h.num_servers ≤ 2 ^ 16
      → ((i : ℕ) (node : Node d)
          → get_elem? nodes i ≡ some node
          → (t : d.Table) × Store.IsFree d (bindings boost mapped polls others impl) h.func_prefix t
            × (node ≡ construct boost mapped polls others d impl h.func_prefix t))
      → IsServing d (bindings boost mapped polls others impl) h nodes
        × Everywhere d (λ q. boost.items q ≡ []) nodes
  unfolding construct bindings
  queue_construct-IsServing width home fits starts =
      let bound = bindings boost mapped polls others impl in
      let distinct : Distinct bound = (refl, (refl, (refl, (refl, tt)))) in
      (
        Store.Starts-IsServing d bound h boost.empty nodes width home fits distinct starts,
        Store.Starts-Everywhere d bound h boost.empty nodes width home fits distinct starts
            (λ q. boost.items q ≡ []) boost.items-empty,
      )
