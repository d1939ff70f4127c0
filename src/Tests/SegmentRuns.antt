-- ===== src/Tests/SegmentRuns.antt =====
-- The shared memory of a machine with two servers, and their clients.
use mathlib.Core.Option.{some-injective}
use basket.Prelude.{
  map, zero, suc, subst, get_elem?, ℕ, ◌≡◌, ◌↔◌, refl, arith, List, [], ◌∷◌, true, false, none,
  some, codes,
}
use basket.Config.Defs as Config
use basket.Config.Defs.{ConfigurationManager, replicate}
use basket.CharStruct.Defs.{CharStruct, c_str, text}
use basket.Rpc.Cluster.{Node, rpclib}
use basket.Rpc.Address.{to_string, decimal_loop}
use basket.Segment.Defs.{in_dir_string, with_number}
use basket.Segment.Construct.{backed_file_iff}
use basket.Segment.Files.{Shared}
use basket.Segment.Servers.{AllStarted}
use basket.Map.Objects.{map_class, destroy}
use basket.Store
use basket.Map.Defs.{bindings}
use basket.Map.Remote.{Becomes}
use basket.Map.Callers.{run}
use basket.Container.Order.{same}
use basket.Store.{effects}
use basket.Map.Segments.{
  MapStart, MapObject, MapServers, name_of, start_members, map_nodes, starts, map-servers-clients,
  map-servers-run, map-destroy-gone,
}
use basket.Tests.Base.{nat_order, client_handle, hash, calls, results}
use basket.Tests.Machine.{Machine, machine, blank}
use basket.Tests.MapRuns.{boost, d}

abbrev pub memory : CharStruct
memory = record { value = replicate 256 120 }

-- The configuration of the server with a number, and of a client on its machine.
abbrev pub server_conf : ℕ → ConfigurationManager
server_conf n = record (Config.construct rpclib 2 n) {
  is_server = true;
  my_server = n;
  num_servers = 2;
}

abbrev pub client_conf : ℕ → ConfigurationManager
client_conf n = record (server_conf n) { is_server = false }

abbrev maps : List (MapStart boost 0 machine d rpclib memory refl)
maps =
    record { conf = server_conf 0; name_ = codes "TEST"; functions = [] }
    ∷ record { conf = server_conf 1; name_ = codes "TEST"; functions = [] }
    ∷ []

abbrev map_clients : List (MapStart boost 0 machine d rpclib memory refl)
map_clients =
    record { conf = client_conf 0; name_ = codes "TEST"; functions = [] }
    ∷ record { conf = client_conf 1; name_ = codes "TEST"; functions = [] }
    ∷ []

two_servers : MapServers boost 0 machine d rpclib memory refl (codes "/dev/shm") maps
unfolding Config.construct c_str to_string decimal_loop
two_servers = (
  (refl, omega arith, (refl, refl, omega arith)),
  refl,
  (λ e. absurd (omega (arith, e.1)), tt),
  ((refl, omega arith, (refl, refl, omega arith)), refl, tt, tt),
)

map-servers-clients_example :
    (t' : Machine (Shared boost.T)) × (made attached : List
      (MapObject boost 0 machine d rpclib memory refl))
    × (starts boost 0 machine d rpclib memory refl maps blank ≡ some (t', made))
    × (starts boost 0 machine d rpclib memory refl map_clients t' ≡ some (t', attached))
    × (map (start_members boost 0 machine d rpclib memory refl) attached
        ≡ map (start_members boost 0 machine d rpclib memory refl) made)
unfolding Config.construct
map-servers-clients_example =
    map-servers-clients boost 0 machine d rpclib memory refl (codes "/dev/shm") maps map_clients
      blank two_servers ((refl, refl, refl, refl, refl), ((refl, refl, refl, refl, refl), tt))

abbrev Listed : ℕ → MapStart boost 0 machine d rpclib memory refl → Type 0
Listed i s =
    (s.conf.my_server ≡ i)
    × (name_of boost 0 machine d rpclib memory refl s ≡ codes "TEST")
    × Store.IsFree d (bindings boost 0 rpclib) (codes "TEST") s.functions

listed :
    (i : ℕ) (s : MapStart boost 0 machine d rpclib memory refl)
    → get_elem? maps i ≡ some s
    → Listed i s
listed zero s e = subst (Listed 0) (some-injective _ _ e) (refl, refl, (λ n f _. refl))
listed (suc zero) s e = subst (Listed 1) (some-injective _ _ e) (refl, refl, (λ n f _. refl))
listed (suc (suc i)) s e = cc

-- Both servers are the configuration's, and the calls come from a client and a server.
map-servers-run_example :
    (t' : Machine (Shared boost.T)) × (made : List (MapObject boost 0 machine d rpclib memory refl))
    × (nodes : List (Node d)) × (starts boost 0 machine d rpclib memory refl maps blank
        ≡ some (t', made))
    × (map_nodes boost 0 machine d rpclib memory refl t' made ≡ some nodes)
    × Becomes boost 0 d rpclib hash client_handle nodes
        (run boost 0 d rpclib hash client_handle calls nodes)
        results
        (effects same 0 (map (λ c. c.1) calls) (λ key. none))
map-servers-run_example =
    map-servers-run boost 0 machine d rpclib memory refl hash client_handle (codes "/dev/shm") maps
      blank calls two_servers refl (omega arith) (omega arith) listed
      (omega arith, (omega arith, (omega arith, (omega arith, tt))))

map-destroy-gone_example :
    (t' : Machine (Shared boost.T)) × (first : MapObject boost 0 machine d rpclib memory refl)
    × (made : List (MapObject boost 0 machine d rpclib memory refl)) × (starts boost 0 machine d
          rpclib memory refl maps blank
        ≡ some (t', first ∷ made))
    × (starts boost 0 machine d rpclib memory refl
          (record { conf = client_conf 0; name_ = codes "TEST"; functions = [] } ∷ [])
          (destroy boost 0 machine d rpclib memory first.0 t')
        ≡ none)
    × AllStarted machine d
        (map_class boost 0 machine d rpclib memory refl)
        (record { conf = server_conf 1; name_ = codes "TEST"; functions = [] } ∷ [])
        (destroy boost 0 machine d rpclib memory first.0 t')
        made
unfolding Config.construct
map-destroy-gone_example =
    map-destroy-gone boost 0 machine d rpclib memory refl (codes "/dev/shm")
      (record { conf = server_conf 0; name_ = codes "TEST"; functions = [] })
      (record { conf = client_conf 0; name_ = codes "TEST"; functions = [] })
      (record { conf = server_conf 1; name_ = codes "TEST"; functions = [] } ∷ []) blank two_servers
      ((refl, refl, refl, refl, refl), tt)

backed_file_iff_example :
    (f f' : CharStruct) × (with_number memory
        (in_dir_string memory (codes "/dev/shm") (codes "A"))
        0
      ≡ some f)
    × (with_number memory (in_dir_string memory (codes "/dev/shm") (codes "A_0")) 1 ≡ some f')
    × ((text f ≡ text f')
        ↔ ((codes "A" ≡ codes "A_0") × ((server_conf 0).my_server ≡ (server_conf 1).my_server)))
unfolding Config.construct c_str to_string decimal_loop
backed_file_iff_example =
    backed_file_iff memory (server_conf 0) (server_conf 1) (codes "A") (codes "A_0") refl refl refl
      refl refl (omega arith) (omega arith)
