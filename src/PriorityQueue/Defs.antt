-- ===== src/PriorityQueue/Defs.antt =====
-- The operations of `basket::priority_queue`.
use basket.Prelude.{ℕ, Bool, true, false, if◌then◌else◌, ltb, List, [], ◌∷◌, none, codes}
use basket.Container.Order.{Order}
use basket.Container.Heap.{Heap}
use basket.Rpc.Names.{Name, Dispatcher, bind_all}
use basket.Rpc.Cluster.{Handle, Handler, Node, Action, remote, route, RpcImplementation}
use basket.Rpc.Serve.{answer}
use basket.Rpc.Wire.{
  Args, Reply, nothing, with_data, a_bool, a_size, a_value, as_bool, as_size, as_value,
}

-- `mapped` is `MappedType()`.
module _ {V : Type 0} ⦃o : Order V⦄ (std : Heap V) (mapped : V) where
  open std use {T}

  unfoldable pub local_push : V → T → T × Bool
  local_push v q = (std.push v q, true)

  unfoldable pub local_pop : T → T × (Bool × V)
  local_pop q =
      if ltb 0 (std.size q)
      then (let value = std.top q in (std.pop q, (true, value)))
      else (q, (false, mapped))

  unfoldable pub local_top : T → T × (Bool × V)
  local_top q = if ltb 0 (std.size q) then (q, (true, std.top q)) else (q, (false, mapped))

  unfoldable pub local_size : T → T × ℕ
  local_size q = (q, std.size q)

  abbrev pub Function : Type 0
  Function = Handler T (Args V V) (Reply V V)

  unfoldable pub push_func : Function
  push_func (with_data v) q = answer a_bool (local_push v q)
  push_func _ q = none

  unfoldable pub pop_func : Function
  pop_func nothing q = answer a_value (local_pop q)
  pop_func _ q = none

  unfoldable pub top_func : Function
  top_func nothing q = answer a_value (local_top q)
  top_func _ q = none

  unfoldable pub size_func : Function
  size_func nothing q = answer a_size (local_size q)
  size_func _ q = none

  -- The functions that the constructor binds, for each RPC implementation.
  unfoldable pub bindings : RpcImplementation → List (Name × Function)
  bindings impl =
      (codes "_Push", push_func)
      ∷ (codes "_Pop", pop_func)
      ∷ (codes "_Top", top_func)
      ∷ (codes "_Size", size_func)
      ∷ []

  module _ (d : Dispatcher (Handler T (Args V V) (Reply V V))) where
    -- The constructor on a server: an empty priority queue in a new segment, and the functions bound.
    unfoldable pub construct : RpcImplementation → Name → d.Table → Node d
    unfolding bindings bind_all
    construct impl func_prefix t = record {
      segment = std.empty;
      functions = bind_all d func_prefix (bindings impl) t;
    }

    module _ (h : Handle) where
      unfoldable pub push : V → ℕ → Action d Bool
      unfolding route remote
      push v key_int =
          route d h key_int (local_push v)
            (remote d h (codes "_Push") key_int (with_data v) as_bool)

      unfoldable pub pop : ℕ → Action d (Bool × V)
      unfolding route remote
      pop key_int = route d h key_int local_pop (remote d h (codes "_Pop") key_int nothing as_value)

      unfoldable pub top : ℕ → Action d (Bool × V)
      unfolding route remote
      top key_int = route d h key_int local_top (remote d h (codes "_Top") key_int nothing as_value)

      unfoldable pub size : ℕ → Action d ℕ
      unfolding route remote
      size key_int =
          route d h key_int local_size (remote d h (codes "_Size") key_int nothing as_size)
