-- ===== src/Tests/HashSegmentRuns.antt =====
-- `basket::unordered_map` in the shared memory of a machine with two servers.
use mathlib.Core.Option.{some-injective}
use basket.Prelude.{
  ℕ, zero, suc, subst, map, ◌++◌, ◌≡◌, refl, arith, List, [], ◌∷◌, none, some, codes,
}
use basket.Config.Defs as Config
use basket.Config.Defs.{replicate}
use basket.CharStruct.Defs.{CharStruct, c_str, text}
use basket.Rpc.Address.{to_string, decimal_loop}
use basket.Rpc.Cluster.{Node, rpclib}
use basket.Segment.Files.{Shared}
use basket.UnorderedMap.Segments.{
  HashStart, HashObject, HashServers, start_members, starts, HashListed, hash_nodes,
  unordered_map-servers-run,
}
use basket.Store
use basket.Store.{effects}
use basket.UnorderedMap.Defs.{bindings}
use basket.UnorderedMap.Remote.{Becomes}
use basket.UnorderedMap.Callers.{run}
use basket.Tests.Base.{client_handle, hash, calls, results, nat_key}
use basket.Tests.HashRuns.{boost, d}
use basket.Tests.Machine.{Machine, machine, blank}
use basket.Tests.SegmentRuns.{memory, server_conf, client_conf}

abbrev name : CharStruct
name = record { value = codes "TEST" ++ replicate 252 0 }

abbrev maps : List (HashStart boost 0 machine d rpclib memory refl)
maps =
    record { conf = server_conf 0; name_ = name; functions = [] }
    ∷ record { conf = server_conf 1; name_ = name; functions = [] }
    ∷ []

abbrev map_clients : List (HashStart boost 0 machine d rpclib memory refl)
map_clients =
    record { conf = client_conf 0; name_ = name; functions = [] }
    ∷ record { conf = client_conf 1; name_ = name; functions = [] }
    ∷ []

two_servers : HashServers boost 0 machine d rpclib memory refl (codes "/dev/shm") maps
unfolding Config.construct c_str to_string decimal_loop text
two_servers = (
  (refl, omega arith, (refl, (refl, omega arith), omega arith)),
  refl,
  (λ e. absurd (omega (arith, e.1)), tt),
  ((refl, omega arith, (refl, (refl, omega arith), omega arith)), refl, tt, tt),
)

abbrev Listed : ℕ → HashStart boost 0 machine d rpclib memory refl → Type 0
Listed i s =
    (s.conf.my_server ≡ i)
    × (text s.name_ ≡ codes "TEST")
    × Store.IsFree d (bindings boost 0 rpclib) (codes "TEST") s.functions

listed : HashListed boost 0 machine d rpclib memory refl client_handle maps
unfolding text
listed zero s e = subst (Listed 0) (some-injective _ _ e) (refl, refl, (λ n f _. refl))
listed (suc zero) s e = subst (Listed 1) (some-injective _ _ e) (refl, refl, (λ n f _. refl))
listed (suc (suc i)) s e = cc

unordered_map-servers-run_example :
    (t' : Machine (Shared boost.T)) × (made attached : List
      (HashObject boost 0 machine d rpclib memory refl))
    × (nodes : List (Node d)) × (starts boost 0 machine d rpclib memory refl maps blank
        ≡ some (t', made))
    × (starts boost 0 machine d rpclib memory refl map_clients t' ≡ some (t', attached))
    × (map (start_members boost 0 machine d rpclib memory refl) attached
        ≡ map (start_members boost 0 machine d rpclib memory refl) made)
    × (hash_nodes boost 0 machine d rpclib memory refl t' made ≡ some nodes)
    × Becomes boost 0 d rpclib hash client_handle nodes
        (run boost 0 d rpclib hash client_handle calls nodes)
        results
        (effects nat_key.equal 0 (map (λ c. c.1) calls) (λ j. none))
unfolding Config.construct
unordered_map-servers-run_example =
    unordered_map-servers-run boost 0 machine d rpclib memory refl hash client_handle
      (codes "/dev/shm") maps map_clients blank calls two_servers
      ((refl, refl, refl, refl, refl), ((refl, refl, refl, refl, refl), tt)) refl (omega arith)
      (omega arith) listed (omega arith, (omega arith, (omega arith, (omega arith, tt))))
