-- ===== src/Clock/Defs.antt =====
-- The operations of `basket::global_clock`.
use basket.Prelude.{
  Option, ◌==◌, ◌&&◌, ℕ, ◌-◌, ◌/◌, ◌%◌, ◌^◌, ltb, if◌then◌else◌, List, [], ◌∷◌, none, codes,
}
use basket.Rpc.Names.{Name, Dispatcher, bind_all}
use basket.Rpc.Cluster.{Handle, Handler, Node, Action, remote, at_pointer, RpcImplementation}
use basket.Rpc.Serve.{answer}
use basket.Rpc.Wire.{Args, Reply, nothing, a_size, as_size}

-- `*start`, in the segment, and what `high_resolution_clock::now()` reads on the server's machine:
-- nanoseconds since the epoch of the clock.
pub record Machine : Type 0 where
  pub start : ℕ
  pub now : ℕ

-- `duration_cast<microseconds>(t2 - *start).count()`, which rounds towards zero, as a `uint64_t`.
unfoldable pub microseconds : ℕ → ℕ → ℕ
microseconds start t2 =
    if ltb t2 start
    then (2 ^ 64 - (start - t2) / 1000 % 2 ^ 64) % 2 ^ 64
    else (t2 - start) / 1000 % 2 ^ 64

unfoldable pub local_get_time : Machine → Machine × ℕ
unfolding microseconds
local_get_time m = (m, microseconds m.start m.now)

abbrev pub Function : Type 0
Function = Handler Machine (Args ℕ ℕ) (Reply ℕ ℕ)

unfoldable pub get_time_func : Function
unfolding local_get_time
get_time_func nothing m = answer a_size (local_get_time m)
get_time_func _ m = none

unfoldable pub bindings : RpcImplementation → List (Name × Function)
bindings impl = (codes "_GetTime", get_time_func) ∷ []

module _ (d : Dispatcher (Handler Machine (Args ℕ ℕ) (Reply ℕ ℕ))) where
  -- The constructor on a server whose clock reads `now`.
  unfoldable pub construct : RpcImplementation → Name → ℕ → d.Table → Node d
  unfolding bindings bind_all
  construct impl func_prefix now t = record {
    segment = record { start = now; now = now };
    functions = bind_all d func_prefix (bindings impl) t;
  }

  -- `start` is the member of the caller: the server whose start the pointer leads to, or none for null.
  -- The file of the segment is named without the server number, so on a client it need not be the own
  -- one. The servers on one machine read one clock.
  unfoldable pub get_time : Handle → Option ℕ → Action d ℕ
  unfolding at_pointer remote local_get_time
  get_time h start =
      if h.server_on_node
      then at_pointer d start local_get_time
      else remote d h (codes "_GetTime") h.my_server nothing as_size

  unfoldable pub get_time_server : Handle → Option ℕ → ℕ → Action d ℕ
  unfolding at_pointer remote local_get_time
  get_time_server h start server =
      if server == h.my_server && h.server_on_node
      then at_pointer d start local_get_time
      else remote d h (codes "_GetTime") server nothing as_size
