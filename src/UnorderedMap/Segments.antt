-- ===== src/UnorderedMap/Segments.antt =====
-- `basket::unordered_map` in the shared memory of a machine: its servers, their clients and the calls.
use mathlib.Core.Path.{fun_ext}
use mathlib.Core.Option.{some-injective}
use basket.Prelude.{
  ℕ, ◌<◌, ◌%◌, ◌^◌, ◌≡◌, sym, ◌∙◌, subst, List, Option, none, some, map, All, length,
}
use basket.Container.Hashed.{Key, HashMap}
use basket.CharStruct.Defs.{CharStruct}
use basket.CharStruct.Text.{IsArray}
use basket.Rpc.Names.{Dispatcher}
use basket.Rpc.Cluster.{Handle, Handler, Node, RpcImplementation}
use basket.Rpc.Wire.{Args, Reply}
use basket.Segment.Files.{Shared, ManagedFiles}
use basket.Segment.Defs.{Members}
use basket.Segment.Class.{Start}
use basket.Segment.Servers.{
  MadeObject, AreServers, AreClients, start_all, members_of, servers-clients,
}
use basket.Segment.Nodes.{nodes_at, AreListed, servers-Starts}
use basket.Store.{Caller, Op, effects, all_returned}
use basket.UnorderedMap.Defs as Defs
use basket.UnorderedMap.Owner.{divides-fits}
use basket.UnorderedMap.Remote.{Becomes, unordered_map_construct-IsValid}
use basket.UnorderedMap.Callers.{run, unordered_map-run-Becomes}
use basket.UnorderedMap.Objects.{unordered_map_class}

module _ {K V : Type 0} {key : Key K} (boost : HashMap V key) (mapped : V)
    (files : ManagedFiles (Shared boost.T))
    (d : Dispatcher (Handler boost.T (Args K V) (Reply K V))) (impl : RpcImplementation)
    (memory : CharStruct) (array : IsArray memory) where
  abbrev pub HashStart : Type 0
  HashStart = Start files d (unordered_map_class boost mapped files d impl memory array)

  abbrev pub HashObject : Type 0
  HashObject = MadeObject files d (unordered_map_class boost mapped files d impl memory array)

  abbrev pub start_members : HashObject → Members files
  start_members = members_of files d (unordered_map_class boost mapped files d impl memory array)

  -- The constructors of hash maps, one after the other.
  abbrev pub starts : List HashStart → files.T → Option (files.T × List HashObject)
  starts = start_all files d (unordered_map_class boost mapped files d impl memory array)

  abbrev pub HashServers : List ℕ → List HashStart → Type 0
  HashServers = AreServers files d (unordered_map_class boost mapped files d impl memory array)

  abbrev pub HashClients : List HashStart → List HashStart → Type 0
  HashClients = AreClients files d (unordered_map_class boost mapped files d impl memory array)

  abbrev pub hash_nodes : files.T → List HashObject → Option (List (Node d))
  hash_nodes = nodes_at files d (unordered_map_class boost mapped files d impl memory array)

  abbrev pub HashListed : Handle → List HashStart → Type 0
  HashListed = AreListed files d (unordered_map_class boost mapped files d impl memory array)

  -- From the files to the calls: all servers of the configuration are on one machine, no two have
  -- the same name and server number, the number of servers divides 2 ^ 16, the texts fit into their
  -- arrays, and each file has room for the hash map and the mutex. Their constructors run in the
  -- order of their numbers, whatever files are there before, each with a table that has no function
  -- under a name of the container. Then they succeed, and so do the constructors of a client for
  -- each of them, which change no file and get the pointers to the segment, the hash map and the
  -- mutex that the server has. Any sequence of `Put`, `Get` and `Erase` calls, of callers on any
  -- nodes that count any of the servers as their own, succeeds on what these pointers lead to. The
  -- calls return what the same operations return on one finite map that is empty at the start, and
  -- leave the servers valid, holding what that map then has.
  pub unordered_map-servers-run :
      (key_hash : K → ℕ) (h : Handle) (dir : List ℕ) (servers clients : List HashStart)
      (t : files.T) (calls : List (Caller × Op K V))
      → HashServers dir servers
      → HashClients servers clients
      → length servers ≡ h.num_servers
      → h.my_server < h.num_servers
      → 2 ^ 16 % h.num_servers ≡ 0
      → HashListed h servers
      → All (λ c. c.0.my_server < h.num_servers) calls
      → (t' : files.T) × (made attached : List HashObject) × (nodes : List (Node d)) × (starts
            servers t
          ≡ some (t', made))
        × (starts clients t' ≡ some (t', attached))
        × (map start_members attached ≡ map start_members made)
        × (hash_nodes t' made ≡ some nodes)
        × Becomes boost mapped d impl key_hash h nodes
            (run boost mapped d impl key_hash h calls nodes)
            (all_returned key.equal mapped (map (λ c. c.1) calls) (λ j. none))
            (effects key.equal mapped (map (λ c. c.1) calls) (λ j. none))
  unfolding Defs.construct
  unordered_map-servers-run key_hash h dir servers clients t calls are_servers are_clients width
        home divides listed homes =
      let k = unordered_map_class boost mapped files d impl memory array in
      let (t', made, attached, ran, ran_clients, same) =
        servers-clients files d k dir servers clients t are_servers are_clients in
      let (t'', made', nodes, ran', at, long, left) =
        servers-Starts files d k h dir servers t are_servers listed in
      let once : (t'', made') ≡ (t', made) = some-injective _ _ (sym ran' ∙ ran) in
      let (valid, nothing) =
        unordered_map_construct-IsValid boost mapped d impl key_hash h nodes (long ∙ width) home
          (divides-fits h.num_servers divides) left in
      let ops = map (λ c. c.1) calls in
      (
        t',
        made,
        attached,
        nodes,
        ran,
        ran_clients,
        same,
        subst (λ r. hash_nodes r.0 r.1 ≡ some nodes) once at,
        subst
            (λ f.
              Becomes boost mapped d impl key_hash h nodes
                (run boost mapped d impl key_hash h calls nodes)
                (all_returned key.equal mapped ops f) (effects key.equal mapped ops f))
            (fun_ext nothing)
            (unordered_map-run-Becomes boost mapped d impl key_hash h calls nodes divides homes
              valid),
      )
