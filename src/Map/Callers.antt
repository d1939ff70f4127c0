-- ===== src/Map/Callers.antt =====
-- Several callers of a `basket::map`.
use basket.Prelude.{ℕ, ◌<◌, List, [], Option, map, All}
use basket.Container.Order.{Order, same}
use basket.Rpc.Names.{Dispatcher}
use basket.Rpc.Cluster.{Handle, Handler, Node, RpcImplementation}
use basket.Rpc.Wire.{Args, Reply}
use basket.Store
use basket.Store.{Caller, handle_of, Op, Result, effects, all_returned}
use basket.Map.Defs.{MyMap, bindings, put, get, erase}
use basket.Map.Local.{map_store}
use basket.Map.Remote.{
  owner, IsValid, held, Becomes, map_put-Becomes, map_get-held, map_erase-Becomes,
}

module _ {K V : Type 0} ⦃o : Order K⦄ (boost : MyMap K V) (mapped : V)
    (d : Dispatcher (Handler boost.T (Args K V) (Reply K V))) (impl : RpcImplementation)
    (key_hash : K → ℕ) (h : Handle) where
  -- The calls of several callers, in the order in which they run.
  abbrev pub run : List (Caller × Op K V) → List (Node d) → Option (List (Node d) × List (Result V))
  run =
      Store.run (map_store boost mapped) d (bindings boost mapped impl) h
        (owner boost mapped d impl key_hash h []) (λ c. put boost mapped d key_hash (handle_of h c))
        (λ c. get boost mapped d key_hash (handle_of h c))
        (λ c. erase boost mapped d key_hash (handle_of h c))

  -- Any sequence of `Put`, `Get` and `Erase` calls, of callers on any nodes that count any of the
  -- servers as their own, succeeds on valid servers. It returns what the
  -- same operations return on one finite map that starts with what the servers hold, and leaves
  -- the servers valid, holding what that map then has.
  pub map-run-Becomes :
      (calls : List (Caller × Op K V)) (nodes : List (Node d))
      → All (λ c. c.0.my_server < h.num_servers) calls
      → IsValid boost mapped d impl key_hash h nodes
      → Becomes boost mapped d impl key_hash h nodes
          (run calls nodes)
          (all_returned same mapped
            (map (λ c. c.1) calls)
            (held boost mapped d impl key_hash h nodes))
          (effects same mapped (map (λ c. c.1) calls) (held boost mapped d impl key_hash h nodes))
  map-run-Becomes calls nodes homes ok =
      Store.run-Becomes (map_store boost mapped) d (bindings boost mapped impl) h
        (owner boost mapped d impl key_hash h []) (λ c. put boost mapped d key_hash (handle_of h c))
        (λ c. get boost mapped d key_hash (handle_of h c))
        (λ c. erase boost mapped d key_hash (handle_of h c))
        (λ c. map_put-Becomes boost mapped d impl key_hash (handle_of h c))
        (λ c. map_get-held boost mapped d impl key_hash (handle_of h c))
        (λ c. map_erase-Becomes boost mapped d impl key_hash (handle_of h c)) calls nodes homes ok
