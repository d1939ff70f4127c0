-- ===== src/Tests/ClockRuns.antt =====
-- `basket::global_clock` on two servers: between two readings the clock of the second is set back, and
-- then goes on.
use basket.Prelude.{ℕ, ◌-◌, ◌/◌, ◌≡◌, refl, arith, List, [], ◌∷◌, none, some, codes}
use basket.Rpc.Names.{Dispatcher}
use basket.Rpc.Cluster.{Handle, Handler, Node, rpclib}
use basket.Rpc.Serve.{IsServing, IsServing-set}
use basket.Rpc.Wire.{Args, Reply}
use basket.Store
use basket.Clock.Defs.{Machine, microseconds, bindings, construct, get_time_server}
use basket.Clock.Readings.{here, next, tick, read, get_time_server-now, get_time_server-Reach}
use basket.Tests.Base.{list_dispatcher, server_handle, client_handle, each}

abbrev d : Dispatcher (Handler Machine (Args ℕ ℕ) (Reply ℕ ℕ))
d = list_dispatcher (Handler Machine (Args ℕ ℕ) (Reply ℕ ℕ))

abbrev fresh : Node d
fresh = construct d rpclib (codes "TEST") 5000 []

abbrev servers : List (Node d)
servers = fresh ∷ fresh ∷ []

abbrev aged : Node d
aged = record fresh { segment = record { start = 5000; now = 7500 } }

-- The clock of the second server has been set back.
abbrev early : Node d
early = record fresh { segment = record { start = 5000; now = 3000 } }

IsServing-client : IsServing d (bindings rpclib) client_handle servers
unfolding construct bindings
IsServing-client =
    Store.Starts-IsServing d (bindings rpclib) client_handle (record { start = 5000; now = 5000 })
      servers refl (omega arith) (omega arith) (refl, tt)
      (λ i node at.
        ([], (λ n f _. refl), each (λ n. n ≡ fresh) servers (refl, (refl, tt)) i node at))

-- Server 1 itself.
abbrev own_handle : Handle
own_handle = record server_handle { my_server = 1 }

IsServing-own : IsServing d (bindings rpclib) own_handle servers
IsServing-own = record {
  width = refl;
  home = omega arith;
  fits = omega arith;
  serves = IsServing-client.serves;
}

IsServing-server : IsServing d (bindings rpclib) server_handle servers
IsServing-server = record {
  width = refl;
  home = omega arith;
  fits = omega arith;
  serves = IsServing-client.serves;
}

IsServing-early : IsServing d (bindings rpclib) server_handle (fresh ∷ early ∷ [])
IsServing-early =
    IsServing-set d IsServing-server 1 fresh (record { start = 5000; now = 3000 }) refl

get_time_server-Reach_example :
    (t t' : ℕ) × (get_time_server d client_handle none 1 servers ≡ some (servers, t))
    × (get_time_server d own_handle (some 1) 1 (fresh ∷ aged ∷ []) ≡ some (fresh ∷ aged ∷ [], t'))
    × (t ≡ (5000 - 5000) / 1000)
    × (t' ≡ (7500 - 5000) / 1000)
unfolding construct microseconds
get_time_server-Reach_example =
    get_time_server-Reach d rpclib client_handle own_handle none (some 1) 1 servers
      (fresh ∷ aged ∷ []) fresh aged IsServing-client IsServing-own (omega arith) (omega arith)
      (λ near. cc) (λ near. refl)
      (next
        (next (next here (tick 1 3000 fresh refl)) (
          read server_handle (some 0) 0 0 IsServing-early (omega arith) (
            get_time_server-now d rpclib server_handle (some 0) (fresh ∷ early ∷ []) 0 fresh
              IsServing-early (omega arith) (λ near. refl) refl)))
        (tick 1 7500 early refl))
      refl refl (omega arith) (omega arith) (omega arith) (omega arith)
