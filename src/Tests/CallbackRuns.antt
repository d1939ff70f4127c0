-- ===== src/Tests/CallbackRuns.antt =====
-- The callbacks of `basket::unordered_map` on two servers.
use basket.Prelude.{ℕ, ◌+◌, ◌≡◌, refl, List, [], ◌∷◌, none, some, codes}
use basket.Container.Hashed.{HashMap, list_map}
use basket.Rpc.Names.{Dispatcher}
use basket.Rpc.Cluster.{Handler, Node, rpclib, thallium_tcp}
use basket.UnorderedMap.Defs.{put_key_int}
use basket.UnorderedMap.Callbacks.Defs.{
  Process, Beyond, CallbackArgs, CallbackReply, Server, bind, put_with_callback, get_with_callback,
  erase_with_callback, get_all_data_in_server_with_callback,
}
use basket.UnorderedMap.Callbacks.Lifetime.{bind-gone}
use basket.UnorderedMap.Callbacks.Remote.{bind-unreachable}
use basket.Tests.Base.{nat_key, list_dispatcher, server_handle, client_handle, hash}

abbrev boost : HashMap ℕ nat_key
boost = list_map nat_key

abbrev H : Type 0
H = Handler (Server boost.T ℕ ℕ ℕ) (CallbackArgs ℕ ℕ ℕ) (CallbackReply ℕ ℕ ℕ)

abbrev d : Dispatcher H
d = list_dispatcher H

-- A callback adds its argument to what it acts on.
abbrev total : ℕ → ℕ → ℕ × ℕ
total x w = (w + x, x)

abbrev idle : Process ℕ ℕ ℕ
idle = record { binding_map = []; memory = λ a. none; world = 10 }

-- A compiled program that goes on with 7 for the result.
abbrev beyond : Beyond ℕ ℕ ℕ
beyond p = some (p, 7)

-- What the callers bind for themselves: here a function that takes no call.
abbrev caller_func : H
caller_func args s = none

abbrev fresh : Node d
fresh = record { segment = ([], idle); functions = [] }

abbrev servers : List (Node d)
servers = fresh ∷ fresh ∷ []

bind-gone_example :
    (after : List (Node d)) × (bind boost 0 beyond d rpclib server_handle 0
        (codes "CB_Put")
        total
        (codes "APut")
        caller_func
        64
        servers
      ≡ some after)
    × (put_with_callback boost 0 beyond d rpclib server_handle hash 4 40
          (codes "APut")
          (codes "CB_Put")
          5
          (after, idle)
        ≡ none)
    × (get_with_callback boost 0 beyond d rpclib server_handle hash 4
          (codes "APut")
          (codes "CB_Put")
          5
          (after, idle)
        ≡ none)
    × (erase_with_callback boost 0 beyond d rpclib server_handle hash 4
          (codes "APut")
          (codes "CB_Put")
          5
          (after, idle)
        ≡ none)
    × (get_all_data_in_server_with_callback boost 0 beyond d rpclib server_handle
          (codes "APut")
          (codes "CB_Put")
          5
          (after, idle)
        ≡ none)
unfolding put_key_int
bind-gone_example =
    bind-gone boost 0 beyond d rpclib server_handle hash (codes "CB_Put") total (codes "APut")
      caller_func 64 servers fresh idle 4 40 (codes "APut") 5 refl refl refl refl

bind-unreachable_example :
    (after : List (Node d)) × (bind boost 0 beyond d thallium_tcp client_handle 0
        (codes "CB_Put")
        total
        (codes "APut")
        caller_func
        64
        servers
      ≡ some after)
    × (put_with_callback boost 0 beyond d thallium_tcp client_handle hash 4 40
          (codes "APut")
          (codes "CB_Put")
          5
          (after, idle)
        ≡ none)
    × (get_with_callback boost 0 beyond d thallium_tcp client_handle hash 4
          (codes "APut")
          (codes "CB_Put")
          5
          (after, idle)
        ≡ none)
    × (erase_with_callback boost 0 beyond d thallium_tcp client_handle hash 4
          (codes "APut")
          (codes "CB_Put")
          5
          (after, idle)
        ≡ none)
unfolding put_key_int
bind-unreachable_example =
    bind-unreachable boost 0 beyond d thallium_tcp client_handle hash 4 40 (codes "APut")
      (codes "CB_Put") total caller_func 64 5 servers fresh idle refl refl refl refl refl
