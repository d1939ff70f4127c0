-- ===== src/PriorityQueue/Callers.antt =====
-- Several callers of a `basket::priority_queue`, against one descending list for each server.
use basket.Prelude.{
  ℕ, ◌<◌, ◌≡◌, refl, subst, Bool, true, false, ◌==◌, ==_iff, ==_refl, if◌then◌else◌, Bool-cases,
  ◌⊎◌, inl, inr, List, [], ◌∷◌, Option, some, map, All, drop, length, get_elem?, set, get_elem?-set,
  lt-get_elem?, ◌>>=◌, arith, codes,
}
use basket.Container.Order.{Order}
use basket.Container.Heap.{Heap}
use basket.Rpc.Names.{Dispatcher}
use basket.Rpc.Cluster.{Handle, Handler, Node, RpcImplementation, on_segment}
use basket.Rpc.Serve.{IsServing, IsServing-set, server, on_segment_lem, route-on_segment}
use basket.Rpc.Wire.{
  Args, Reply, nothing, with_data, a_bool, a_size, a_value, as_bool, as_size, as_value,
}
use basket.Store.{Caller, handle_of, IsServing-handle_of}
use basket.PriorityQueue.Defs.{
  local_push, local_pop, local_top, local_size, push_func, pop_func, top_func, size_func, bindings,
  push, pop, top, size,
}
use basket.PriorityQueue.Sorted.{
  Lists, insert_sorted, first_of, push-Lists, pop-Lists, top-Lists, size-Lists,
}

pub data Op (V : Type 0) : Type 0 where
  pushing : V → ℕ → Op V
  popping : ℕ → Op V
  topping : ℕ → Op V
  sizing : ℕ → Op V

pub data Result (V : Type 0) : Type 0 where
  a_flag : Bool → Result V
  an_item : Bool × V → Result V
  a_number : ℕ → Result V

abbrev pub server_of : {V : Type 0} → Op V → ℕ
server_of (pushing v i) = i
server_of (popping i) = i
server_of (topping i) = i
server_of (sizing i) = i

-- What stands at a place after a write.
written_cases :
    {A : Type 0}
    → (xs : List A) (i j : ℕ) (v x : A) → i < length xs
    → get_elem? (set xs i v) j ≡ some x
    → ((i == j ≡ true) × (v ≡ x)) ⊎ ((i == j ≡ false) × (get_elem? xs j ≡ some x))
written_cases xs i j v x lt found = elim (Bool-cases (i == j)) [
  | inl same ↦ inl (same, ground (arith, get_elem?-set xs i j v lt, same, found))
  | inr differ ↦ inr (differ, ground (arith, get_elem?-set xs i j v lt, differ, found))
]

module _ {V : Type 0} ⦃o : Order V⦄ (std : Heap V) (mapped : V) where
  abbrev replaced : (ℕ → List V) → ℕ → List V → ℕ → List V
  replaced f i vs j = if i == j then vs else f j

  -- What an operation does to the descending lists, by server, and what it returns.
  abbrev pub effect : Op V → (ℕ → List V) → ℕ → List V
  effect (pushing v i) f = replaced f i (insert_sorted v (f i))
  effect (popping i) f = replaced f i (drop 1 (f i))
  effect (topping i) f = f
  effect (sizing i) f = f

  abbrev pub returned : Op V → (ℕ → List V) → Result V
  returned (pushing v i) f = a_flag true
  returned (popping i) f = an_item (first_of std mapped (f i))
  returned (topping i) f = an_item (first_of std mapped (f i))
  returned (sizing i) f = a_number (length (f i))

  abbrev pub effects : List (Op V) → (ℕ → List V) → ℕ → List V
  effects [] f = f
  effects (op ∷ ops) f = effects ops (effect op f)

  abbrev pub all_returned : List (Op V) → (ℕ → List V) → List (Result V)
  all_returned [] f = []
  all_returned (op ∷ ops) f = returned op f ∷ all_returned ops (effect op f)

  module _ (d : Dispatcher (Handler std.T (Args V V) (Reply V V))) (impl : RpcImplementation)
      (h : Handle) where
    abbrev with_result :
        {B : Type 0}
        → (B → Result V)
        → Option (List (Node d) × B)
        → Option (List (Node d) × Result V)
    with_result result r = r >>= λ x. some (x.0, result x.1)

    abbrev perform : Caller → Op V → List (Node d) → Option (List (Node d) × Result V)
    perform c (pushing v i) nodes = with_result a_flag (push std mapped d (handle_of h c) v i nodes)
    perform c (popping i) nodes = with_result an_item (pop std mapped d (handle_of h c) i nodes)
    perform c (topping i) nodes = with_result an_item (top std mapped d (handle_of h c) i nodes)
    perform c (sizing i) nodes = with_result a_number (size std mapped d (handle_of h c) i nodes)

    -- The calls in the order in which they run.
    abbrev pub run : List (Caller × Op V) → List (Node d) → Option (List (Node d) × List (Result V))
    run [] nodes = some (nodes, [])
    run (c ∷ calls) nodes =
        perform c.0 c.1 nodes >>= λ r. run calls r.0 >>= λ rs. some (rs.0, r.1 ∷ rs.1)

    abbrev pub IsReady : List (Node d) → Type 0
    IsReady = IsServing d (bindings std mapped impl) h

    -- Each server has the elements of its list, which goes from the greatest to the least.
    abbrev pub Holds : List (Node d) → (ℕ → List V) → Type 0
    Holds nodes f =
        (i : ℕ) (node : Node d)
        → get_elem? nodes i ≡ some node
        → Lists std mapped node.segment (f i)

    -- A run ends with the results `b`, on servers that have their functions and hold the lists `f`.
    abbrev pub Ends : {B : Type 0} → Option (List (Node d) × B) → B → (ℕ → List V) → Type 0
    Ends r b f = (after : List (Node d)) × (r ≡ some (after, b)) × IsReady after × Holds after f

    -- An operation on the segment of one server.
    Ends-on_segment :
        {B : Type 0} (result : B → Result V) (op : std.T → std.T × B) (b : B) (i : ℕ)
        (nodes : List (Node d)) (f g : ℕ → List V)
        → i < h.num_servers
        → IsReady nodes
        → Holds nodes f
        → ((q : std.T)
            → Lists std mapped q (f i)
            → ((op q).1 ≡ b) × Lists std mapped (op q).0 (g i))
        → ((j : ℕ) → (i == j) ≡ false → g j ≡ f j)
        → Ends (with_result result (on_segment d i op nodes)) (result b) g
    Ends-on_segment result op b i nodes f g lt ready holds does others =
        let (node, at) = server d ready i lt in
        let (gives, leaves) = does node.segment (holds i node at) in
        let q = (op node.segment).0 in
        (
          set nodes i (record node { segment = q }),
          rw (on_segment_lem d op nodes i node at, gives) refl,
          IsServing-set d ready i node q at,
          λ j other found.
              elim (written_cases nodes i j (record node { segment = q }) other
                (lt-get_elem? nodes i node at) found) [
                  | inl (same, e) ↦
                      subst (λ x. Lists std mapped x.segment (g j)) e
                        (subst (λ n. Lists std mapped q (g n)) ((==_iff i j).0 same) leaves)
                  | inr (differ, old) ↦ rw (others j differ) (holds j other old)
                ],
        )

    performs :
        (c : Caller) (op : Op V) (nodes : List (Node d)) (f : ℕ → List V)
        → c.my_server < h.num_servers
        → server_of op < h.num_servers
        → IsReady nodes
        → Holds nodes f
        → Ends (perform c op nodes) (returned op f) (effect op f)
    unfolding push pop top size bindings push_func pop_func top_func size_func local_push
    performs c (pushing v i) nodes f home lt ready holds =
        let ready' = IsServing-handle_of d (bindings std mapped impl) h c nodes home ready in
        let op = local_push std mapped v in
        rw
          (route-on_segment d ready' op (codes "_Push") (with_data v) a_bool as_bool
            (push_func std mapped) refl (λ s. refl) (λ b. refl) i lt)
          (Ends-on_segment a_flag op true i nodes f _ lt ready holds
            (λ q held. (refl, rw (==_refl i) (push-Lists std mapped q v (f i) held)))
            (λ j differ. rw differ refl))
    performs c (popping i) nodes f home lt ready holds =
        let ready' = IsServing-handle_of d (bindings std mapped impl) h c nodes home ready in
        let op = local_pop std mapped in
        rw
          (route-on_segment d ready' op (codes "_Pop") nothing a_value as_value
            (pop_func std mapped) refl (λ s. refl) (λ b. refl) i lt)
          (Ends-on_segment an_item op (first_of std mapped (f i)) i nodes f _ lt ready holds
            (λ q held. rw (==_refl i) (pop-Lists std mapped q (f i) held))
            (λ j differ. rw differ refl))
    performs c (topping i) nodes f home lt ready holds =
        let ready' = IsServing-handle_of d (bindings std mapped impl) h c nodes home ready in
        let op = local_top std mapped in
        rw
          (route-on_segment d ready' op (codes "_Top") nothing a_value as_value
            (top_func std mapped) refl (λ s. refl) (λ b. refl) i lt)
          (Ends-on_segment an_item op (first_of std mapped (f i)) i nodes f f lt ready holds
            (λ q held. rw (top-Lists std mapped q (f i) held) (refl, held)) (λ j differ. refl))
    performs c (sizing i) nodes f home lt ready holds =
        let ready' = IsServing-handle_of d (bindings std mapped impl) h c nodes home ready in
        let op = local_size std mapped in
        rw
          (route-on_segment d ready' op (codes "_Size") nothing a_size as_size
            (size_func std mapped) refl (λ s. refl) (λ b. refl) i lt)
          (Ends-on_segment a_number op (length (f i)) i nodes f f lt ready holds
            (λ q held. rw (size-Lists std mapped q (f i) held) (refl, held)) (λ j differ. refl))

    -- Any sequence of `Push`, `Pop`, `Top` and `Size` calls for any of the servers, of callers on any
    -- nodes that count any of them as their own, succeeds where the servers have their functions
    -- and each holds the elements of a list that goes from the greatest to the least. It returns
    -- what the same operations return on one such list for each server, into which `Push` inserts
    -- in order and whose first element `Top` reads and `Pop` removes; afterwards each server holds
    -- the elements of its list.
    pub priority_queue-run-Ends :
        (calls : List (Caller × Op V)) (nodes : List (Node d)) (f : ℕ → List V)
        → All (λ c. (c.0.my_server < h.num_servers) × (server_of c.1 < h.num_servers)) calls
        → IsReady nodes
        → Holds nodes f
        → Ends
            (run calls nodes)
            (all_returned (map (λ c. c.1) calls) f)
            (effects (map (λ c. c.1) calls) f)
    priority_queue-run-Ends [] nodes f homes ready holds = (nodes, refl, ready, holds)
    priority_queue-run-Ends ((c, op) ∷ calls) nodes f homes ready holds =
        let (between, first, ready', holds') =
          performs c op nodes f homes.0.0 homes.0.1 ready holds in
        let (after, rest, ready'', holds'') =
          priority_queue-run-Ends calls between (effect op f) homes.1 ready' holds' in
        (after, rw (first, rest) refl, ready'', holds'')
