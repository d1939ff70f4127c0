-- ===== src/UnorderedMap/Callers.antt =====
-- Several callers of a `basket::unordered_map`.
use basket.Prelude.{ℕ, ◌<◌, ◌≡◌, List, [], Option, map, All, ◌%◌, ◌^◌, arith}
use basket.Container.Hashed.{Key, HashMap}
use basket.UnorderedMap.Owner.{put_key_int_iff}
use basket.Rpc.Names.{Dispatcher}
use basket.Rpc.Cluster.{Handle, Handler, Node, RpcImplementation}
use basket.Rpc.Wire.{Args, Reply}
use basket.Store
use basket.Store.{Caller, handle_of, Op, Result, effects, all_returned}
use basket.UnorderedMap.Defs.{bindings, put, get, erase}
use basket.UnorderedMap.Local.{hash_store}
use basket.UnorderedMap.Remote.{
  owner, IsValid, held, Becomes, unordered_map_put-Becomes, unordered_map_get-held,
  unordered_map_erase-Becomes,
}

module _ {K V : Type 0} {key : Key K} (boost : HashMap V key) (mapped : V)
    (d : Dispatcher (Handler boost.T (Args K V) (Reply K V))) (impl : RpcImplementation)
    (key_hash : K → ℕ) (h : Handle) where
  -- The calls of several callers, in the order in which they run.
  abbrev pub run : List (Caller × Op K V) → List (Node d) → Option (List (Node d) × List (Result V))
  run =
      Store.run (hash_store boost mapped) d (bindings boost mapped impl) h
        (owner boost mapped d impl key_hash h []) (λ c. put boost mapped d key_hash (handle_of h c))
        (λ c. get boost mapped d key_hash (handle_of h c))
        (λ c. erase boost mapped d key_hash (handle_of h c))

  -- Any sequence of `Put`, `Get` and `Erase` calls, of callers on any nodes that count any of the
  -- servers as their own, succeeds on valid servers, if the
  -- number of servers divides 2 ^ 16. It returns what the
  -- same operations return on one finite map that starts with what the servers hold, and leaves
  -- the servers valid, holding what that map then has.
  pub unordered_map-run-Becomes :
      (calls : List (Caller × Op K V)) (nodes : List (Node d))
      → 2 ^ 16 % h.num_servers ≡ 0
      → All (λ c. c.0.my_server < h.num_servers) calls
      → IsValid boost mapped d impl key_hash h nodes
      → Becomes boost mapped d impl key_hash h nodes
          (run calls nodes)
          (all_returned key.equal mapped
            (map (λ c. c.1) calls)
            (held boost mapped d impl key_hash h nodes))
          (effects key.equal mapped
            (map (λ c. c.1) calls)
            (held boost mapped d impl key_hash h nodes))
  unordered_map-run-Becomes calls nodes divides homes ok =
      Store.run-Becomes (hash_store boost mapped) d (bindings boost mapped impl) h
        (owner boost mapped d impl key_hash h []) (λ c. put boost mapped d key_hash (handle_of h c))
        (λ c. get boost mapped d key_hash (handle_of h c))
        (λ c. erase boost mapped d key_hash (handle_of h c))
        (λ c between ok k v.
          unordered_map_put-Becomes boost mapped d impl key_hash (handle_of h c) between ok k v (
            (put_key_int_iff h.num_servers (omega (arith, ok.serving.home)) ok.serving.fits).1
              divides (key_hash k)))
        (λ c. unordered_map_get-held boost mapped d impl key_hash (handle_of h c))
        (λ c. unordered_map_erase-Becomes boost mapped d impl key_hash (handle_of h c)) calls nodes
        homes ok
