-- ===== src/Segment/Nodes.antt =====
-- The servers of a machine as nodes: what their pointers lead to, and their functions.
use mathlib.Core.Option.{some-injective}
use basket.Prelude.{
  sym, ℕ, ◌≡◌, refl, ap, List, [], ◌∷◌, Option, none, some, map, get_elem?, length, ◌>>=◌, ◌∙◌,
  zero, suc,
}
use basket.Rpc.Names.{Dispatcher, bind_all}
use basket.Rpc.Cluster.{Handle, Handler, Node}
use basket.Segment.Files.{Shared, container, mutex, ManagedFiles}
use basket.Segment.Class.{Class, Start}
use basket.Segment.Servers.{MadeObject, AllStarted, AreServers, start_all, start_all-AllStarted}
use basket.Store

module _ {C Args Reply : Type 0} (files : ManagedFiles (Shared C))
    (d : Dispatcher (Handler C Args Reply)) (k : Class files d) where
  abbrev container_of : Shared C → Option C
  container_of (container c) = some c
  container_of mutex = none

  -- `*mymap`, with the functions of the server.
  abbrev pub node_at : files.T → MadeObject files d k → Option (Node d)
  node_at t x = do
    p ← x.0.members.data_pointer
    y ← files.find p.0 p.1 t
    c ← container_of y
    some (record { segment = c; functions = x.1 })

  abbrev pub nodes_at : files.T → List (MadeObject files d k) → Option (List (Node d))
  nodes_at t [] = some []
  nodes_at t (x ∷ xs) = node_at t x >>= λ n. nodes_at t xs >>= λ ns. some (n ∷ ns)

  -- What the constructor leaves on a server, as a node.
  abbrev new_node : Start files d k → Node d
  new_node s = record {
    segment = k.initial;
    functions = bind_all d (k.name_of s.name_) k.bindings s.functions;
  }

  nodes_at-started :
      (ss : List (Start files d k)) (t : files.T) (xs : List (MadeObject files d k))
      → AllStarted files d k ss t xs
      → nodes_at t xs ≡ some (map new_node ss)
  nodes_at-started [] t [] started = refl
  nodes_at-started [] t (x ∷ xs) started = elim started [ ]
  nodes_at-started (s ∷ ss) t [] started = elim started [ ]
  nodes_at-started (s ∷ ss) t (x ∷ xs) ((made, _, _, bound), all) =
      let (segment, _, there, _, _, is_data, _) = made in
      rw (is_data, there, nodes_at-started ss t xs all) (rw bound refl)

  -- Each of them is one that a server left.
  new_node-of :
      (ss : List (Start files d k)) (i : ℕ) (node : Node d)
      → get_elem? (map new_node ss) i ≡ some node
      → (s : Start files d k) × (get_elem? ss i ≡ some s) × (node ≡ new_node s)
  new_node-of [] i node e = cc
  new_node-of (s ∷ ss) zero node e = (s, refl, sym (some-injective _ _ e))
  new_node-of (s ∷ ss) (suc i) node e = new_node-of ss i node e

  length-new_nodes : (ss : List (Start files d k)) → length (map new_node ss) ≡ length ss
  length-new_nodes [] = refl
  length-new_nodes (s ∷ ss) = ap suc (length-new_nodes ss)

  -- The servers of the configuration, in the order of their numbers, each with a table that has no
  -- function under a name of the container.
  abbrev pub AreListed : Handle → List (Start files d k) → Type 0
  AreListed h ss =
      (i : ℕ) (s : Start files d k)
      → get_elem? ss i ≡ some s
      → (s.conf.my_server ≡ i)
        × (k.name_of s.name_ ≡ h.func_prefix)
        × Store.IsFree d k.bindings h.func_prefix s.functions

  -- All of them start on one machine.
  pub servers-Starts :
      (h : Handle) (dir : List ℕ) (ss : List (Start files d k)) (t : files.T)
      → AreServers files d k dir ss
      → AreListed h ss
      → (t' : files.T) × (xs : List (MadeObject files d k)) × (nodes : List (Node d)) × (start_all
            files d k ss t
          ≡ some (t', xs))
        × (nodes_at t' xs ≡ some nodes)
        × (length nodes ≡ length ss)
        × ((i : ℕ) (node : Node d)
            → get_elem? nodes i ≡ some node
            → Store.Starts d k.bindings h.func_prefix k.initial node)
  servers-Starts h dir ss t are_servers listed =
      let (t', xs, run, all, _) = start_all-AllStarted files d k dir ss t are_servers in
      (
        t',
        xs,
        map new_node ss,
        run,
        nodes_at-started ss t' xs all,
        length-new_nodes ss,
        λ i node at.
            let (s, at_s, is_new) = new_node-of ss i node at in
            let (_, name, free) = listed i s at_s in (s.functions, free, is_new ∙ rw name refl),
      )
