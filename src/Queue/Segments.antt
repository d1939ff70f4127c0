-- ===== src/Queue/Segments.antt =====
-- `basket::queue` in the shared memory of a machine: its servers, and the calls for them.
use mathlib.Core.Path.{fun_ext}
use basket.Prelude.{
  ℕ, ◌<◌, ◌≤◌, ◌^◌, ◌≡◌, ap, subst, ◌∙◌, List, [], Option, some, map, All, get_elem?, length,
  Option-cases, inl, inr,
}
use basket.CharStruct.Defs.{CharStruct}
use basket.CharStruct.Text.{IsArray}
use basket.Container.Deque.{Deque}
use basket.Rpc.Names.{Dispatcher}
use basket.Rpc.Cluster.{Handle, Handler, Node, RpcImplementation}
use basket.Rpc.Serve.{Everywhere}
use basket.Rpc.Wire.{Args, Reply}
use basket.Segment.Files.{Shared, ManagedFiles}
use basket.Segment.Class.{Start}
use basket.Segment.Servers.{MadeObject, AreServers, start_all}
use basket.Segment.Nodes.{nodes_at, AreListed, servers-Starts}
use basket.Store.{Caller}
use basket.Queue.Defs.{bindings}
use basket.Queue.Defs as Defs
use basket.Queue.Objects.{queue_class}
use basket.Queue.Remote.{queue_at, queue_construct-IsServing}
use basket.Queue.Callers.{Op, server_of, items_at, run, Ends, all_returned, effects, queue-run-Ends}

module _ {V : Type 0} (boost : Deque V) (mapped : V) (polls : ℕ) (others : boost.T → ℕ → boost.T)
    (files : ManagedFiles (Shared boost.T))
    (d : Dispatcher (Handler boost.T (Args V V) (Reply V V))) (impl : RpcImplementation)
    (memory : CharStruct) (array : IsArray memory) where
  abbrev pub QueueStart : Type 0
  QueueStart = Start files d (queue_class boost mapped polls others files d impl memory array)

  abbrev pub QueueObject : Type 0
  QueueObject = MadeObject files d (queue_class boost mapped polls others files d impl memory array)

  abbrev pub name_of : QueueStart → List ℕ
  name_of s = s.name_

  abbrev pub queue_nodes : files.T → List QueueObject → Option (List (Node d))
  queue_nodes = nodes_at files d (queue_class boost mapped polls others files d impl memory array)

  -- The constructors of queues, one after the other.
  abbrev pub starts : List QueueStart → files.T → Option (files.T × List QueueObject)
  starts = start_all files d (queue_class boost mapped polls others files d impl memory array)

  abbrev pub QueueServers : List ℕ → List QueueStart → Type 0
  QueueServers =
      AreServers files d (queue_class boost mapped polls others files d impl memory array)

  abbrev pub QueueListed : Handle → List QueueStart → Type 0
  QueueListed = AreListed files d (queue_class boost mapped polls others files d impl memory array)

  module _ (h : Handle) where
    items_at-empty :
        (nodes : List (Node d))
        → Everywhere d (λ q. boost.items q ≡ []) nodes
        → items_at boost mapped polls others d impl h nodes ≡ λ j. []
    items_at-empty nodes empty = fun_ext (λ j. elim (Option-cases (get_elem? nodes j)) [
      | inl e ↦ ap (queue_at boost mapped polls others d impl h nodes) e
      | inr (node, e) ↦ ap (queue_at boost mapped polls others d impl h nodes) e ∙ empty j node e
    ])

    -- From the files to the calls: all servers of the configuration, at most 2 ^ 16, are on one
    -- machine, no two have the same name and server number, the texts fit into their arrays, and
    -- each file has room for the queue and the mutex. Their constructors run in the order of their
    -- numbers, whatever files are there before, each with a table that has no function under a name
    -- of the container. Then they succeed, and any sequence of `Push`, `Pop` and `Size` calls for
    -- any of the servers, of callers on any nodes that count any of the servers as their own,
    -- succeeds on what the pointers of the servers lead to. The calls return what the same
    -- operations return on sequences that are empty at the start, one for each server, and leave
    -- the items of these sequences.
    pub queue-servers-run :
        (dir : List ℕ) (servers : List QueueStart) (t : files.T) (calls : List (Caller × Op V))
        → QueueServers dir servers
        → length servers ≡ h.num_servers
        → h.my_server < h.num_servers
        → h.num_servers ≤ 2 ^ 16
        → QueueListed h servers
        → All (λ c. (c.0.my_server < h.num_servers) × (server_of c.1 < h.num_servers)) calls
        → (t' : files.T) × (made : List QueueObject) × (nodes : List (Node d)) × (starts servers t
            ≡ some (t', made))
          × (queue_nodes t' made ≡ some nodes)
          × Ends boost mapped polls others d impl h
              (run boost mapped polls others d impl h calls nodes)
              (all_returned mapped (map (λ c. c.1) calls) (λ j. []))
              (effects mapped (map (λ c. c.1) calls) (λ j. []))
    unfolding Defs.construct
    queue-servers-run dir servers t calls are_servers width home fits listed homes =
        let k = queue_class boost mapped polls others files d impl memory array in
        let (t', made, nodes, ran, at, long, left) =
          servers-Starts files d k h dir servers t are_servers listed in
        let (ready, empty) =
          queue_construct-IsServing boost mapped polls others d impl h nodes (long ∙ width) home
            fits left in
        let ends = queue-run-Ends boost mapped polls others d impl h calls nodes homes ready in
        let ops = map (λ c. c.1) calls in
        (
          t',
          made,
          nodes,
          ran,
          at,
          subst
              (λ f.
                Ends boost mapped polls others d impl h
                  (run boost mapped polls others d impl h calls nodes) (all_returned mapped ops f)
                  (effects mapped ops f))
              (items_at-empty nodes empty) ends,
        )
