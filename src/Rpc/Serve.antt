-- ===== src/Rpc/Serve.antt =====
-- Servers that have the functions of a container, and the two ways to a segment: the shared memory and
-- the remote call of include/basket/communication/rpc_lib.cpp.
use basket.Prelude.{
  ℕ, ◌<◌, ◌≤◌, ◌%◌, ◌^◌, ◌≡◌, Option, some, List, ◌++◌, ◌&&◌, ◌==◌, set, get_elem?, arith, length,
  length-set, get_elem?-lt, set-get_elem?, set_cases, subst, Bool-cases, inl, inr, ◌∙◌,
}
use basket.Rpc.Names.{Name, Dispatcher, lookup_name}
use basket.Rpc.Cluster.{Handle, Handler, Node, on_segment, call, remote, route, own}

-- What a bound function sends back: the new segment and the encoded result.
abbrev pub answer {ℓ} : {S B Reply : Type ℓ} → (B → Reply) → S × B → Option (S × Reply)
answer encode r = some (r.0, encode r.1)

module _ {S Args Reply : Type 0} (d : Dispatcher (Handler S Args Reply)) where
  -- Each server of the configuration has the container's functions.
  pub record IsServing (bindings : List (Name × Handler S Args Reply)) (h : Handle)
      (nodes : List (Node d)) : Type 0 where
    pub width : length nodes ≡ h.num_servers
    pub home : h.my_server < h.num_servers
    pub fits : h.num_servers ≤ 2 ^ 16
    pub serves :
        (i : ℕ) (node : Node d)
        → get_elem? nodes i ≡ some node
        → (n : Name) (f : Handler S Args Reply) → lookup_name n bindings ≡ some f
        → d.function (h.func_prefix ++ n) node.functions ≡ some f

  -- A property of every segment.
  abbrev pub Everywhere : (S → Type 0) → List (Node d) → Type 0
  Everywhere P nodes = (i : ℕ) (node : Node d) → get_elem? nodes i ≡ some node → P node.segment

  module _ {B : Type 0} (op : S → S × B) (nodes : List (Node d)) (i : ℕ) (node : Node d)
      (at : get_elem? nodes i ≡ some node) where
    pub on_segment_lem :
        on_segment d i op nodes
        ≡ some (set nodes i (record node { segment = (op node.segment).0 }), (op node.segment).1)
    unfolding on_segment
    on_segment_lem = rw at

    -- An operation that leaves the segment as it was leaves the servers as they were.
    pub on_segment_read :
        ((s : S) → (op s).0 ≡ s) → on_segment d i op nodes ≡ some (nodes, (op node.segment).1)
    unfolding on_segment
    on_segment_read same = rw (at, same node.segment, set-get_elem? nodes i node at)

  -- A property of every segment survives a change of one segment that has it.
  pub Everywhere-set :
      (P : S → Type 0) (nodes : List (Node d)) (i : ℕ) (node : Node d) (s : S)
      → P s
      → Everywhere P nodes
      → Everywhere P (set nodes i (record node { segment = s }))
  Everywhere-set P nodes i node s new all j other found =
      elim (set_cases nodes i j (record node { segment = s }) other found) [
        | inl (_, e) ↦ subst (λ x. P x.segment) e new
        | inr old ↦ all j other old
      ]

  module _ {bindings : List (Name × Handler S Args Reply)} {h : Handle} {nodes : List (Node d)}
      (ready : IsServing bindings h nodes) where
    pub server : (i : ℕ) → i < h.num_servers → (node : Node d) × (get_elem? nodes i ≡ some node)
    server i lt = get_elem?-lt nodes i (rw ready.width lt)

    -- The servers keep serving when one segment changes.
    pub IsServing-set :
        (i : ℕ) (node : Node d) (s : S)
        → get_elem? nodes i ≡ some node
        → IsServing bindings h (set nodes i (record node { segment = s }))
    IsServing-set i node s at = record {
      width = length-set nodes i _ ∙ ready.width;
      home = ready.home;
      fits = ready.fits;
      serves = λ j other found n f bound.
          elim (set_cases nodes i j (record node { segment = s }) other found) [
            | inl (_, e) ↦
                subst (λ x. d.function (h.func_prefix ++ n) x.functions ≡ some f) e
                  (ready.serves i node at n f bound)
            | inr old ↦ ready.serves j other old n f bound
          ];
    }

    module _ {B : Type 0} (op : S → S × B) (n : Name) (args : Args) (encode : B → Reply)
        (decode : Reply → Option B) (f : Handler S Args Reply)
        (bound : lookup_name n bindings ≡ some f) (runs : (s : S) → f args s ≡ answer encode (op s))
        (round_trip : (b : B) → decode (encode b) ≡ some b) where
      -- The remote call of a bound function runs the local operation on that server.
      pub remote-on_segment :
          (i : ℕ) → i < h.num_servers → remote d h n i args decode nodes ≡ on_segment d i op nodes
      unfolding remote call on_segment
      remote-on_segment i lt =
          let (node, at) = server i lt in
          let index : i % 2 ^ 16 ≡ i = omega (arith, lt, ready.fits) in
          rw (index, at, ready.serves i node at n f bound, runs node.segment, round_trip)

      -- So an operation that is routed by a server's number runs on that server, wherever the
      -- caller is.
      pub route-on_segment :
          (i : ℕ)
          → i < h.num_servers
          → route d h i op (remote d h n i args decode) nodes ≡ on_segment d i op nodes
      unfolding route
      route-on_segment i lt = elim (Bool-cases (i == h.my_server && h.server_on_node)) [
        | inl near ↦ rw near
        | inr far ↦ rw far (remote-on_segment i lt)
      ]

      pub own-on_segment :
          own d h op (remote d h n h.my_server args decode) nodes
          ≡ on_segment d h.my_server op nodes
      unfolding own
      own-on_segment = elim (Bool-cases h.server_on_node) [
        | inl near ↦ simp near
        | inr far ↦ simp far (remote-on_segment h.my_server ready.home)
      ]
