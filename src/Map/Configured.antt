-- ===== src/Map/Configured.antt =====
-- A `basket::map` in a program that was configured from a server list.
use basket.Prelude.{
  ℕ, ◌<◌, ◌≤◌, ◌^◌, ◌≡◌, subst, ◌∙◌, Bool, arith, List, Option, none, some, get_elem?, length,
}
use basket.Container.Order.{Order}
use basket.CharStruct.Defs.{c_str}
use basket.Config.Defs.{ConfigurationManager, load_servers, configure}
use basket.Config.Servers.{configure-home, path_of}
use basket.Rpc.Names.{Name, Dispatcher}
use basket.Rpc.Cluster.{Handle, Handler, Node, RpcImplementation}
use basket.Rpc.Wire.{Args, Reply}
use basket.Store
use basket.Map.Defs.{MyMap, bindings, construct}
use basket.Map.Remote.{IsValid, held, map_construct-IsValid}

-- What the constructor copies from the configuration, and the name of the container.
unfoldable pub handle : ConfigurationManager → Name → Handle
handle c name = record {
  is_server = c.is_server;
  my_server = c.my_server;
  num_servers = c.num_servers;
  server_on_node = c.server_on_node;
  func_prefix = name;
}

-- From the server list to the container: where the path given fits into its array, and `LoadServers`
-- makes a list of 1 to 2 ^ 16 servers of the file at it, or else at the path set before, a process of any
-- rank that runs one of the default configurations succeeds, and for it the listed servers, after
-- each has run the constructor with a table that has no function under a name of the container,
-- are valid and hold nothing.
pub configure-map-IsValid :
    {K V : Type 0} ⦃o : Order K⦄ (boost : MyMap K V) (mapped : V)
    (d : Dispatcher (Handler boost.T (Args K V) (Reply K V))) (impl : RpcImplementation)
    (key_hash : K → ℕ) (name : Name) (nodes : List (Node d)) (server : Bool)
    (files : List ℕ → Option (List (List ℕ))) (server_list_path : List ℕ) (c : ConfigurationManager)
    (lines list : List (List ℕ))
    → length (c_str server_list_path) < 256
    → files (path_of server_list_path c) ≡ some lines
    → load_servers lines ≡ some list
    → 0 < length list
    → length list ≤ 2 ^ 16
    → length nodes ≡ length list
    → ((i : ℕ) (node : Node d)
        → get_elem? nodes i ≡ some node
        → (t : d.Table) × Store.IsFree d (bindings boost mapped impl) name t
          × (node ≡ construct boost mapped d impl name t))
    → (c' : ConfigurationManager) × (configure server files server_list_path c ≡ some c')
      × IsValid boost mapped d impl key_hash (handle c' name) nodes
      × ((k : K) → held boost mapped d impl key_hash (handle c' name) nodes k ≡ none)
unfolding handle
configure-map-IsValid boost mapped d impl key_hash name nodes server files path c lines list short
      open_file loaded some_server fits width starts =
    let (c', run, made, counted, home, _, _, _, _, _) =
      configure-home server files path c lines list short open_file loaded some_server fits in
    let n : length list ≡ c'.num_servers = subst (λ l. length l ≡ c'.num_servers) made counted in
    let (valid, empty) =
      map_construct-IsValid boost mapped d impl key_hash (handle c' name) nodes (width ∙ n) home
        (omega (arith, fits, n)) starts in
    (c', run, valid, empty)
