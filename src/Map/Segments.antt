-- ===== src/Map/Segments.antt =====
-- `basket::map` in the shared memory of a machine: its servers, their clients and the destructor.
use mathlib.Core.Path.{fun_ext}
use basket.Prelude.{
  All, subst, ℕ, ◌<◌, ◌≤◌, ◌^◌, ◌≡◌, ◌∙◌, List, [], ◌∷◌, Option, none, some, map, length,
}
use basket.Container.Order.{Order, same}
use basket.CharStruct.Defs.{CharStruct}
use basket.CharStruct.Text.{IsArray}
use basket.Rpc.Names.{Dispatcher}
use basket.Rpc.Cluster.{Handle, Handler, Node, RpcImplementation}
use basket.Rpc.Wire.{Args, Reply}
use basket.Segment.Files.{Shared, ManagedFiles}
use basket.Segment.Defs.{Members}
use basket.Segment.Class.{Start}
use basket.Segment.Servers.{
  MadeObject, AreServers, AreClients, AllStarted, start_all, members_of, servers-clients,
  servers-destroy,
}
use basket.Segment.Nodes.{nodes_at, AreListed, servers-Starts}
use basket.Store.{Caller, Op, effects, all_returned}
use basket.Map.Defs.{MyMap, bindings}
use basket.Map.Defs as Defs
use basket.Map.Objects.{destroy, map_class}
use basket.Map.Callers.{run, map-run-Becomes}
use basket.Map.Remote.{IsValid, held, Becomes, map_construct-IsValid}

module _ {K V : Type 0} ⦃o : Order K⦄ (boost : MyMap K V) (mapped : V)
    (files : ManagedFiles (Shared boost.T))
    (d : Dispatcher (Handler boost.T (Args K V) (Reply K V))) (impl : RpcImplementation)
    (memory : CharStruct) (array : IsArray memory) where
  abbrev pub MapStart : Type 0
  MapStart = Start files d (map_class boost mapped files d impl memory array)

  abbrev pub MapObject : Type 0
  MapObject = MadeObject files d (map_class boost mapped files d impl memory array)

  abbrev pub name_of : MapStart → List ℕ
  name_of s = s.name_

  abbrev pub start_members : MapObject → Members files
  start_members = members_of files d (map_class boost mapped files d impl memory array)

  abbrev pub map_nodes : files.T → List MapObject → Option (List (Node d))
  map_nodes = nodes_at files d (map_class boost mapped files d impl memory array)

  -- The constructors of maps, one after the other.
  abbrev pub starts : List MapStart → files.T → Option (files.T × List MapObject)
  starts = start_all files d (map_class boost mapped files d impl memory array)

  abbrev pub MapServers : List ℕ → List MapStart → Type 0
  MapServers = AreServers files d (map_class boost mapped files d impl memory array)

  abbrev pub MapClients : List MapStart → List MapStart → Type 0
  MapClients = AreClients files d (map_class boost mapped files d impl memory array)

  -- The constructors of the servers of a machine succeed one after the other, whatever files are
  -- there before, if no two have the same name and number, the texts fit into their arrays, and each
  -- file has room for the map and the mutex. Then the constructors of a client for each of them
  -- succeed, change no file, and get the pointers to the segment, the map and the mutex that the
  -- server has.
  pub map-servers-clients :
      (dir : List ℕ) (servers clients : List MapStart) (t : files.T)
      → MapServers dir servers
      → MapClients servers clients
      → (t' : files.T) × (made attached : List MapObject) × (starts servers t ≡ some (t', made))
        × (starts clients t' ≡ some (t', attached))
        × (map start_members attached ≡ map start_members made)
  map-servers-clients = servers-clients files d (map_class boost mapped files d impl memory array)

  abbrev pub MapListed : Handle → List MapStart → Type 0
  MapListed = AreListed files d (map_class boost mapped files d impl memory array)

  -- The constructors of these servers leave valid servers that hold nothing.
  map-servers-IsValid :
      (key_hash : K → ℕ) (h : Handle) (dir : List ℕ) (servers : List MapStart) (t : files.T)
      → MapServers dir servers
      → length servers ≡ h.num_servers
      → h.my_server < h.num_servers
      → h.num_servers ≤ 2 ^ 16
      → MapListed h servers
      → (t' : files.T) × (made : List MapObject) × (nodes : List (Node d)) × (starts servers t
          ≡ some (t', made))
        × (map_nodes t' made ≡ some nodes)
        × IsValid boost mapped d impl key_hash h nodes
        × ((key : K) → held boost mapped d impl key_hash h nodes key ≡ none)
  unfolding Defs.construct
  map-servers-IsValid key_hash h dir servers t are_servers width home fits listed =
      let k = map_class boost mapped files d impl memory array in
      let (t', made, nodes, ran, at, long, left) =
        servers-Starts files d k h dir servers t are_servers listed in
      let (valid, empty) =
        map_construct-IsValid boost mapped d impl key_hash h nodes (long ∙ width) home fits left in
      (t', made, nodes, ran, at, valid, empty)

  -- From the files to the calls: all servers of the configuration, at most 2 ^ 16, are on one
  -- machine, no two have the same name and server number, the texts fit into their arrays, and each
  -- file has room for the map and the mutex. Their constructors run in the order of their numbers,
  -- whatever files are there before, each with a table that has no function under a name of the
  -- container. Then they succeed, and any sequence of `Put`, `Get` and `Erase` calls, of callers on
  -- any nodes that count any of the servers as their own, succeeds on what the pointers of the
  -- servers lead to. The calls return what the same operations return on one finite map that is
  -- empty at the start, and leave the servers valid, holding what that map then has.
  pub map-servers-run :
      (key_hash : K → ℕ) (h : Handle) (dir : List ℕ) (servers : List MapStart) (t : files.T)
      (calls : List (Caller × Op K V))
      → MapServers dir servers
      → length servers ≡ h.num_servers
      → h.my_server < h.num_servers
      → h.num_servers ≤ 2 ^ 16
      → MapListed h servers
      → All (λ c. c.0.my_server < h.num_servers) calls
      → (t' : files.T) × (made : List MapObject) × (nodes : List (Node d)) × (starts servers t
          ≡ some (t', made))
        × (map_nodes t' made ≡ some nodes)
        × Becomes boost mapped d impl key_hash h nodes
            (run boost mapped d impl key_hash h calls nodes)
            (all_returned same mapped (map (λ c. c.1) calls) (λ key. none))
            (effects same mapped (map (λ c. c.1) calls) (λ key. none))
  map-servers-run key_hash h dir servers t calls are_servers width home fits listed homes =
      let (t', made, nodes, ran, at, valid, nothing) =
        map-servers-IsValid key_hash h dir servers t are_servers width home fits listed in
      let ops = map (λ c. c.1) calls in
      (
        t',
        made,
        nodes,
        ran,
        at,
        subst
            (λ f.
              Becomes boost mapped d impl key_hash h nodes
                (run boost mapped d impl key_hash h calls nodes) (all_returned same mapped ops f)
                (effects same mapped ops f))
            (fun_ext nothing)
            (map-run-Becomes boost mapped d impl key_hash h calls nodes homes valid),
      )

  -- Servers start on a machine, no two with the same name and number, with texts that fit into their
  -- arrays and with room in the files, and the destructor of the first one's map runs. Then the
  -- constructor of a client of that server ends in an exception, and each other server still has the
  -- file, the segment, the map and the mutex that it made.
  pub map-destroy-gone :
      (dir : List ℕ) (server client : MapStart) (others : List MapStart) (t : files.T)
      → MapServers dir (server ∷ others)
      → MapClients (server ∷ []) (client ∷ [])
      → (t' : files.T) × (first : MapObject) × (made : List MapObject) × (starts (server ∷ others) t
          ≡ some (t', first ∷ made))
        × (starts (client ∷ []) (destroy boost mapped files d impl memory first.0 t') ≡ none)
        × AllStarted files d
            (map_class boost mapped files d impl memory array)
            others
            (destroy boost mapped files d impl memory first.0 t')
            made
  unfolding destroy
  map-destroy-gone dir server client others t are_servers (is_client, _) =
      servers-destroy files d (map_class boost mapped files d impl memory array) dir server client
        others t are_servers is_client
