-- ===== src/Queue/Defs.antt =====
-- The operations of `basket::queue`.
use basket.Prelude.{
  ℕ, zero, suc, Bool, true, false, if◌then◌else◌, ◌==◌, ◌&&◌, ltb, ◌+◌, List, [], ◌∷◌, Option, none,
  some, get_elem?, set, codes, ◌>>=◌,
}
use basket.Container.Deque.{Deque}
use basket.Rpc.Names.{Name, Dispatcher, bind_all}
use basket.Rpc.Cluster.{Handle, Handler, Node, Action, remote, route, RpcImplementation}
use basket.Rpc.Serve.{answer}
use basket.Rpc.Wire.{
  Args, Reply, nothing, with_data, a_bool, a_size, a_value, as_bool, as_size, as_value,
}

-- `mapped` is `MappedType()`.
module _ {V : Type 0} (boost : Deque V) (mapped : V) where
  open boost use {T}

  unfoldable pub local_push : V → T → T × Bool
  local_push v q = (boost.push_back v q, true)

  unfoldable pub local_pop : T → T × (Bool × V)
  local_pop q =
      if ltb 0 (boost.size q)
      then (let value = boost.front q in (boost.pop_front q, (true, value)))
      else (q, (false, mapped))

  unfoldable pub local_size : T → T × ℕ
  local_size q = (q, boost.size q)

  -- The loop polls the queue without its mutex: `seen n` is the queue that other callers have made of
  -- it after `n` sleeps. It runs for `polls` polls at most here, and `none` is a loop that goes on.
  unfoldable pub local_wait_for_element : ℕ → (ℕ → T) → ℕ → Option (T × Bool)
  local_wait_for_element zero seen count = none
  local_wait_for_element (suc polls) seen count =
      let later = local_wait_for_element polls seen (count + 1) in
      if boost.size (seen count) == 0 then later else some (seen count, true)

  abbrev pub Function : Type 0
  Function = Handler T (Args V V) (Reply V V)

  unfoldable pub push_func : Function
  push_func (with_data v) q = answer a_bool (local_push v q)
  push_func _ q = none

  unfoldable pub pop_func : Function
  pop_func nothing q = answer a_value (local_pop q)
  pop_func _ q = none

  unfoldable pub size_func : Function
  size_func nothing q = answer a_size (local_size q)
  size_func _ q = none

  -- `others q n` is what other callers make of the queue `q` in `n` sleeps.
  module _ (polls : ℕ) (others : T → ℕ → T) where
    unfoldable pub wait_for_element_func : Function
    wait_for_element_func nothing q =
        local_wait_for_element polls (others q) 0 >>= λ r. answer a_bool r
    wait_for_element_func _ q = none

    -- The functions that the constructor binds, for each RPC implementation.
    unfoldable pub bindings : RpcImplementation → List (Name × Function)
    bindings impl =
        (codes "_Push", push_func)
        ∷ (codes "_Pop", pop_func)
        ∷ (codes "_WaitForElement", wait_for_element_func)
        ∷ (codes "_Size", size_func)
        ∷ []

    module _ (d : Dispatcher (Handler T (Args V V) (Reply V V))) where
      -- The constructor on a server: an empty queue in a new segment, and the functions bound.
      unfoldable pub construct : RpcImplementation → Name → d.Table → Node d
      unfolding bindings bind_all
      construct impl func_prefix t = record {
        segment = boost.empty;
        functions = bind_all d func_prefix (bindings impl) t;
      }

      -- The polling branch, on the segment of a server.
      unfoldable pub wait_on_segment : ℕ → Action d Bool
      wait_on_segment i nodes = do
        node ← get_elem? nodes i
        (q, b) ← local_wait_for_element polls (others node.segment) 0
        some (set nodes i (record node { segment = q }), b)

      unfoldable pub wait_for_element : Handle → ℕ → Action d Bool
      unfolding wait_on_segment remote
      wait_for_element h key_int =
          if key_int == h.my_server && h.server_on_node
          then wait_on_segment key_int
          else remote d h (codes "_WaitForElement") key_int nothing as_bool

  module _ (d : Dispatcher (Handler T (Args V V) (Reply V V))) (h : Handle) where
    unfoldable pub push : V → ℕ → Action d Bool
    unfolding route remote
    push v key_int =
        route d h key_int (local_push v) (remote d h (codes "_Push") key_int (with_data v) as_bool)

    unfoldable pub pop : ℕ → Action d (Bool × V)
    unfolding route remote
    pop key_int = route d h key_int local_pop (remote d h (codes "_Pop") key_int nothing as_value)

    unfoldable pub size : ℕ → Action d ℕ
    unfolding route remote
    size key_int = route d h key_int local_size (remote d h (codes "_Size") key_int nothing as_size)
