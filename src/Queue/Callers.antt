-- ===== src/Queue/Callers.antt =====
-- Several callers of a `basket::queue`, against one sequence of items for each server.
use mathlib.Core.Path.{fun_ext}
use basket.Prelude.{
  ℕ, ◌<◌, ◌≡◌, refl, ap, ◌∙◌, Bool, true, false, ◌==◌, if◌then◌else◌, Bool-cases, inl, inr, List,
  [], ◌∷◌, ◌++◌, Option, some, map, All, drop, length, get_elem?, set, get_elem?-set, lt-get_elem?,
  ◌>>=◌,
}
use basket.Container.Deque.{Deque}
use basket.Rpc.Names.{Dispatcher}
use basket.Rpc.Cluster.{Handle, Handler, Node, RpcImplementation}
use basket.Rpc.Serve.{IsServing, IsServing-set}
use basket.Rpc.Wire.{Args, Reply}
use basket.Store.{Caller, handle_of, IsServing-handle_of}
use basket.Queue.Defs.{bindings, push, pop, size}
use basket.Queue.Remote.{Moves, queue_at, push-Moves, pop-Moves, size-length_at}

pub data Op (V : Type 0) : Type 0 where
  pushing : V → ℕ → Op V
  popping : ℕ → Op V
  sizing : ℕ → Op V

pub data Result (V : Type 0) : Type 0 where
  a_flag : Bool → Result V
  an_item : Bool × V → Result V
  a_number : ℕ → Result V

abbrev pub server_of : {V : Type 0} → Op V → ℕ
server_of (pushing v i) = i
server_of (popping i) = i
server_of (sizing i) = i

-- Sequences of items, by server: what an operation does to them, and what it returns.
module _ {V : Type 0} (mapped : V) where
  abbrev pub item_of : List V → Bool × V
  item_of [] = (false, mapped)
  item_of (v ∷ vs) = (true, v)

  abbrev pub replaced : (ℕ → List V) → ℕ → List V → ℕ → List V
  replaced f i vs j = if i == j then vs else f j

  abbrev pub effect : Op V → (ℕ → List V) → ℕ → List V
  effect (pushing v i) f = replaced f i (f i ++ v ∷ [])
  effect (popping i) f = replaced f i (drop 1 (f i))
  effect (sizing i) f = f

  abbrev pub returned : Op V → (ℕ → List V) → Result V
  returned (pushing v i) f = a_flag true
  returned (popping i) f = an_item (item_of (f i))
  returned (sizing i) f = a_number (length (f i))

  abbrev pub effects : List (Op V) → (ℕ → List V) → ℕ → List V
  effects [] f = f
  effects (op ∷ ops) f = effects ops (effect op f)

  abbrev pub all_returned : List (Op V) → (ℕ → List V) → List (Result V)
  all_returned [] f = []
  all_returned (op ∷ ops) f = returned op f ∷ all_returned ops (effect op f)

module _ {V : Type 0} (boost : Deque V) (mapped : V) (polls : ℕ) (others : boost.T → ℕ → boost.T)
    (d : Dispatcher (Handler boost.T (Args V V) (Reply V V))) (impl : RpcImplementation)
    (h : Handle) where
  abbrev with_result :
      {B : Type 0} → (B → Result V) → Option (List (Node d) × B) → Option (List (Node d) × Result V)
  with_result result r = r >>= λ x. some (x.0, result x.1)

  abbrev perform : Caller → Op V → List (Node d) → Option (List (Node d) × Result V)
  perform c (pushing v i) nodes = with_result a_flag (push boost mapped d (handle_of h c) v i nodes)
  perform c (popping i) nodes = with_result an_item (pop boost mapped d (handle_of h c) i nodes)
  perform c (sizing i) nodes = with_result a_number (size boost mapped d (handle_of h c) i nodes)

  -- The calls in the order in which they run.
  abbrev pub run : List (Caller × Op V) → List (Node d) → Option (List (Node d) × List (Result V))
  run [] nodes = some (nodes, [])
  run (c ∷ calls) nodes =
      perform c.0 c.1 nodes >>= λ r. run calls r.0 >>= λ rs. some (rs.0, r.1 ∷ rs.1)

  -- The items of each server.
  abbrev pub items_at : List (Node d) → ℕ → List V
  items_at nodes i = queue_at boost mapped polls others d impl h nodes (get_elem? nodes i)

  abbrev pub IsReady : List (Node d) → Type 0
  IsReady = IsServing d (bindings boost mapped polls others impl) h

  -- A run ends with the results `b`, on servers that have their functions and the items `f`.
  abbrev pub Ends : {B : Type 0} → Option (List (Node d) × B) → B → (ℕ → List V) → Type 0
  Ends r b f =
      (after : List (Node d)) × (r ≡ some (after, b))
      × IsReady after
      × ((j : ℕ) → items_at after j ≡ f j)

  Moves-Ends :
      {B : Type 0} (result : B → Result V) (r : Option (List (Node d) × B)) (i : ℕ)
      (nodes : List (Node d)) (after : List V) (b : B)
      → IsReady nodes
      → Moves boost mapped polls others d impl h nodes r i (items_at nodes i) after b
      → Ends (with_result result r) (result b) (replaced mapped (items_at nodes) i after)
  Moves-Ends result r i nodes after b ready (node, q, at, before, ran, left) = (
    set nodes i (record node { segment = q }),
    rw ran refl,
    IsServing-set d ready i node q at,
    λ j.
        ap (queue_at boost mapped polls others d impl h nodes)
          (get_elem?-set nodes i j (record node { segment = q }) (lt-get_elem? nodes i node at))
        ∙ elim (Bool-cases (i == j)) [
          | inl same ↦ rw (same, left) refl
          | inr differ ↦ rw differ refl
        ],
  )

  performs :
      (c : Caller) (op : Op V) (nodes : List (Node d))
      → c.my_server < h.num_servers
      → server_of op < h.num_servers
      → IsReady nodes
      → Ends
          (perform c op nodes)
          (returned mapped op (items_at nodes))
          (effect mapped op (items_at nodes))
  performs c (pushing v i) nodes home lt ready =
      let ready' =
        IsServing-handle_of d (bindings boost mapped polls others impl) h c nodes home ready in
      Moves-Ends a_flag _ i nodes _ true ready
        (push-Moves boost mapped polls others d impl (handle_of h c) nodes ready' v i lt)
  performs c (popping i) nodes home lt ready =
      let ready' =
        IsServing-handle_of d (bindings boost mapped polls others impl) h c nodes home ready in
      Moves-Ends an_item _ i nodes _ _ ready
        (pop-Moves boost mapped polls others d impl (handle_of h c) nodes ready' i lt)
  performs c (sizing i) nodes home lt ready =
      let ready' =
        IsServing-handle_of d (bindings boost mapped polls others impl) h c nodes home ready in
      let counted =
        size-length_at boost mapped polls others d impl (handle_of h c) nodes ready' i lt in
      (nodes, ap (with_result a_number) counted, ready, λ j. refl)

  -- Any sequence of `Push`, `Pop` and `Size` calls for any of the servers, of callers on any nodes that
  -- count any of them as their own, succeeds where the servers have their functions. It returns
  -- what the same operations return on one sequence of items for each server, which starts with the
  -- items there and gains at the back and loses at the front; afterwards the servers have the
  -- items of these sequences.
  pub queue-run-Ends :
      (calls : List (Caller × Op V)) (nodes : List (Node d))
      → All (λ c. (c.0.my_server < h.num_servers) × (server_of c.1 < h.num_servers)) calls
      → IsReady nodes
      → Ends
          (run calls nodes)
          (all_returned mapped (map (λ c. c.1) calls) (items_at nodes))
          (effects mapped (map (λ c. c.1) calls) (items_at nodes))
  queue-run-Ends [] nodes homes ready = (nodes, refl, ready, λ j. refl)
  queue-run-Ends ((c, op) ∷ calls) nodes homes ready =
      let f = items_at nodes in
      let ops = map (λ c. c.1) calls in
      let (between, first, ready', holds) = performs c op nodes homes.0.0 homes.0.1 ready in
      let same : items_at between ≡ effect mapped op f = fun_ext holds in
      let (after, rest, ready'', holds') = queue-run-Ends calls between homes.1 ready' in
      (
        after,
        rw (first, rest)
            (ap (λ g. some (after, returned mapped op f ∷ all_returned mapped ops g)) same),
        ready'',
        λ j. holds' j ∙ ap (λ g. effects mapped ops g j) same,
      )
