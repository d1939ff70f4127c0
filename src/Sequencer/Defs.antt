-- ===== src/Sequencer/Defs.antt =====
-- The operations of `basket::global_sequence`. The segment is the `uint64_t` that `value` points to.
use basket.Prelude.{Option, if◌then◌else◌, ◌==◌, ◌&&◌, ℕ, ◌+◌, ◌%◌, ◌^◌, List, [], ◌∷◌, none, codes}
use basket.Rpc.Names.{Name, Dispatcher, bind_all}
use basket.Rpc.Cluster.{Handle, Handler, Node, Action, remote, at_pointer, RpcImplementation}
use basket.Rpc.Serve.{answer}
use basket.Rpc.Wire.{Args, Reply, nothing, a_size, as_size}

-- `return ++*value;`, on 64 bits
unfoldable pub local_get_next_sequence : ℕ → ℕ × ℕ
local_get_next_sequence value = let next = (value + 1) % 2 ^ 64 in (next, next)

abbrev pub Function : Type 0
Function = Handler ℕ (Args ℕ ℕ) (Reply ℕ ℕ)

unfoldable pub get_next_sequence_func : Function
get_next_sequence_func nothing value = answer a_size (local_get_next_sequence value)
get_next_sequence_func _ value = none

unfoldable pub bindings : RpcImplementation → List (Name × Function)
bindings impl = (codes "_GetNextSequence", get_next_sequence_func) ∷ []

module _ (d : Dispatcher (Handler ℕ (Args ℕ ℕ) (Reply ℕ ℕ))) where
  -- The constructor on a server: the function bound, and the value 0 in a new segment.
  unfoldable pub construct : RpcImplementation → Name → d.Table → Node d
  unfolding bindings bind_all
  construct impl func_prefix t = record {
    segment = 0;
    functions = bind_all d func_prefix (bindings impl) t;
  }

  -- `value` is the member of the caller: the server that the pointer leads to, or none for null. The
  -- file of the segment is named without the server number, so on a client it need not be the own one.
  unfoldable pub get_next_sequence : Handle → Option ℕ → Action d ℕ
  unfolding at_pointer remote
  get_next_sequence h value =
      if h.server_on_node
      then at_pointer d value local_get_next_sequence
      else remote d h (codes "_GetNextSequence") h.my_server nothing as_size

  unfoldable pub get_next_sequence_server : Handle → Option ℕ → ℕ → Action d ℕ
  unfolding at_pointer remote
  get_next_sequence_server h value server =
      if server == h.my_server && h.server_on_node
      then at_pointer d value local_get_next_sequence
      else remote d h (codes "_GetNextSequence") server nothing as_size
