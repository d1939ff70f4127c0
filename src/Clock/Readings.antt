-- ===== src/Clock/Readings.antt =====
-- The times that callers read, while the clocks of the servers go on.
use mathlib.Core.Option.{some-injective}
use basket.Prelude.{
  Option, none, true, ◌&&◌, Option-cases, ℕ, ◌-◌, ◌*◌, ◌/◌, ◌^◌, ◌<◌, ◌≤◌, ◌≡◌, refl, ap, sym,
  subst, ◌∙◌, ◌==◌, false, ltb, Bool-cases, inl, inr, arith, List, some, get_elem?, set,
  get_elem?-set, lt-get_elem?, codes, ==_iff, ==_refl,
}
use basket.Rpc.Names.{Dispatcher}
use basket.Rpc.Cluster.{Handle, Handler, Node, RpcImplementation, remote, on_segment, at_pointer}
use basket.Rpc.Serve.{IsServing, on_segment_read, IsServing-set, remote-on_segment}
use basket.Rpc.Wire.{Args, Reply, nothing, a_size, as_size}
use basket.Clock.Defs.{
  Machine, microseconds, local_get_time, get_time_func, bindings, get_time, get_time_server,
}

-- The clock shows `now`.
abbrev pub showing : ℕ → Machine → Machine
showing now m = record m { now = now }

module _ (d : Dispatcher (Handler Machine (Args ℕ ℕ) (Reply ℕ ℕ))) (impl : RpcImplementation) where
  -- What happens between two readings: the clock of a server goes to any other time, earlier ones too,
  -- since `high_resolution_clock` need not be steady, or a caller with any pointer reads a clock.
  pub data Step (nodes : List (Node d)) : List (Node d) → Type 0 where
    tick :
        (i now : ℕ) (node : Node d)
        → get_elem? nodes i ≡ some node
        → Step nodes (set nodes i (record node { segment = showing now node.segment }))
    read :
        (h : Handle) (start : Option ℕ) (i t : ℕ) {after : List (Node d)}
        → IsServing d (bindings impl) h nodes
        → i < h.num_servers
        → get_time_server d h start i nodes ≡ some (after, t)
        → Step nodes after

  pub data Reach (nodes : List (Node d)) : List (Node d) → Type 0 where
    here : Reach nodes nodes
    next :
        {between after : List (Node d)}
        → Reach nodes between
        → Step between after
        → Reach nodes after

  -- Where a caller would read the start in the segment, its pointer leads to the server it asks.
  abbrev pub Leads : ℕ → Handle → Option ℕ → Type 0
  Leads i h start = (i == h.my_server && h.server_on_node) ≡ true → start ≡ some i

  away-on_segment :
      (h : Handle) (nodes : List (Node d)) (i : ℕ)
      → IsServing d (bindings impl) h nodes
      → i < h.num_servers
      → remote d h (codes "_GetTime") i nothing as_size nodes ≡ on_segment d i local_get_time nodes
  unfolding bindings get_time_func local_get_time
  away-on_segment h nodes i serving lt =
      remote-on_segment d serving local_get_time (codes "_GetTime") nothing a_size as_size
        get_time_func refl (λ s. refl) (λ b. refl) i lt

  -- A reading changes nothing.
  read-segment :
      (nodes : List (Node d)) (i : ℕ) (node : Node d)
      → get_elem? nodes i ≡ some node
      → on_segment d i local_get_time nodes
        ≡ some (nodes, microseconds node.segment.start node.segment.now)
  unfolding local_get_time
  read-segment nodes i node at = on_segment_read d local_get_time nodes i node at (λ s. refl)

  pub get_time_server-now :
      (h : Handle) (start : Option ℕ) (nodes : List (Node d)) (i : ℕ) (node : Node d)
      → IsServing d (bindings impl) h nodes
      → i < h.num_servers
      → Leads i h start
      → get_elem? nodes i ≡ some node
      → get_time_server d h start i nodes
        ≡ some (nodes, microseconds node.segment.start node.segment.now)
  unfolding get_time_server at_pointer
  get_time_server-now h start nodes i node serving lt leads at =
      elim (Bool-cases (i == h.my_server && h.server_on_node)) [
        | inl near ↦ rw (near, leads near) (read-segment nodes i node at)
        | inr away ↦ rw away (away-on_segment h nodes i serving lt ∙ read-segment nodes i node at)
      ]

  -- `GetTime` is `GetTimeServer` of the own server.
  get_time-own :
      (h : Handle) (start : Option ℕ) (nodes : List (Node d))
      → get_time d h start nodes ≡ get_time_server d h start h.my_server nodes
  unfolding get_time get_time_server
  get_time-own h start nodes = rw (==_refl h.my_server) refl

  segment-same :
      (nodes after : List (Node d)) (i t : ℕ)
      → on_segment d i local_get_time nodes ≡ some (after, t)
      → nodes ≡ after
  unfolding on_segment
  segment-same nodes after i t run = elim (Option-cases (get_elem? nodes i)) [
    | inl e ↦ cc (rw e at run)
    | inr (node, e) ↦ ap (λ r. r.0) (some-injective _ _ (sym (read-segment nodes i node e) ∙ run))
  ]

  pointer-same :
      (start : Option ℕ) (nodes after : List (Node d)) (t : ℕ)
      → at_pointer d start local_get_time nodes ≡ some (after, t)
      → nodes ≡ after
  unfolding at_pointer
  pointer-same none nodes after t run = cc
  pointer-same (some j) nodes after t run = segment-same nodes after j t run

  read-same :
      {nodes after : List (Node d)} (h : Handle) (start : Option ℕ) (i t : ℕ)
      → IsServing d (bindings impl) h nodes
      → i < h.num_servers
      → get_time_server d h start i nodes ≡ some (after, t)
      → nodes ≡ after
  unfolding get_time_server
  read-same {nodes = nodes} {after = after} h start i t serving lt run =
      elim (Bool-cases (i == h.my_server && h.server_on_node)) [
        | inl near ↦ pointer-same start nodes after t (rw near at run)
        | inr away ↦
            segment-same nodes after i t
              (sym (away-on_segment h nodes i serving lt) ∙ (rw away at run))
      ]

  -- A step keeps the servers serving.
  Step-IsServing :
      {nodes after : List (Node d)} (h : Handle)
      → Step nodes after
      → IsServing d (bindings impl) h nodes
      → IsServing d (bindings impl) h after
  Step-IsServing h (tick i t node at) serving = IsServing-set d serving i node _ at
  Step-IsServing h (read g start i t ready lt run) serving =
      subst (IsServing d (bindings impl) h) (read-same g start i t ready lt run) serving

  Reach-IsServing :
      {nodes after : List (Node d)} (h : Handle)
      → Reach nodes after
      → IsServing d (bindings impl) h nodes
      → IsServing d (bindings impl) h after
  Reach-IsServing h here serving = serving
  Reach-IsServing h (next r s) serving = Step-IsServing h s (Reach-IsServing h r serving)

  Step-start :
      {nodes after : List (Node d)} (i : ℕ) (node : Node d)
      → Step nodes after
      → get_elem? nodes i ≡ some node
      → (node' : Node d) × (get_elem? after i ≡ some node')
        × (node'.segment.start ≡ node.segment.start)
  Step-start {nodes = nodes} i node (tick j t other at) found =
      let new : Node d = record other { segment = showing t other.segment } in
      let there = get_elem?-set nodes j i new (lt-get_elem? nodes j other at) in
      elim (Bool-cases (j == i)) [
        | inl same ↦
            let e : j ≡ i = (==_iff j i).0 same in
            let one : other ≡ node =
              some-injective other node (sym at ∙ ap (λ x. get_elem? nodes x) e ∙ found) in
            (new, there ∙ rw same refl, ap (λ n. n.segment.start) one)
        | inr differ ↦ (node, there ∙ (rw differ found), refl)
      ]
  Step-start {nodes = nodes} i node (read g start j t ready lt run) found = (
    node,
    subst (λ x. get_elem? x i ≡ some node) (read-same g start j t ready lt run) found,
    refl,
  )

  Reach-start :
      {nodes after : List (Node d)} (i : ℕ) (node : Node d)
      → Reach nodes after
      → get_elem? nodes i ≡ some node
      → (node' : Node d) × (get_elem? after i ≡ some node')
        × (node'.segment.start ≡ node.segment.start)
  Reach-start i node here found = (node, found, refl)
  Reach-start i node (next r s) found =
      let (node1, at1, start1) = Reach-start i node r found in
      let (node2, at2, start2) = Step-start i node1 s at1 in (node2, at2, start2 ∙ start1)

  elapsed :
      (start now : ℕ)
      → start ≤ now
      → now - start < 2 ^ 64 * 1000
      → microseconds start now ≡ (now - start) / 1000
  unfolding microseconds
  elapsed start now le fits =
      let not_before : ltb now start ≡ false = ground (arith, le) in
      rw not_before (omega (arith, fits))

  -- Two callers ask for the time of one server, one after the other, with any steps in between, in which
  -- clocks may be set back, and the servers have their functions. Where a caller reads the start in the
  -- segment, its pointer leads to that server. Then both calls succeed and change nothing, and both
  -- numbers are the microseconds from the same start, the one that the server has at the first call, to
  -- what its clock shows at the call. It is asked that the clock shows no time before the start at these
  -- calls, and none past 2 ^ 64 microseconds.
  pub get_time_server-Reach :
      (first second : Handle) (start start' : Option ℕ) (i : ℕ) (nodes after : List (Node d))
      (node node' : Node d)
      → IsServing d (bindings impl) first nodes
      → IsServing d (bindings impl) second nodes
      → i < first.num_servers
      → i < second.num_servers
      → Leads i first start
      → Leads i second start'
      → Reach nodes after
      → get_elem? nodes i ≡ some node
      → get_elem? after i ≡ some node'
      → node.segment.start ≤ node.segment.now
      → node.segment.start ≤ node'.segment.now
      → node.segment.now < 2 ^ 64 * 1000
      → node'.segment.now < 2 ^ 64 * 1000
      → (t t' : ℕ) × (get_time_server d first start i nodes ≡ some (nodes, t))
        × (get_time_server d second start' i after ≡ some (after, t'))
        × (t ≡ (node.segment.now - node.segment.start) / 1000)
        × (t' ≡ (node'.segment.now - node.segment.start) / 1000)
  get_time_server-Reach first second start start' i nodes after node node' ready ready' lt lt' leads
        leads' steps at at' le le' fits fits' =
      let (found, there, kept) = Reach-start i node steps at in
      let same : found ≡ node' = some-injective found node' (sym there ∙ at') in
      let started : node'.segment.start ≡ node.segment.start = rw (← same) kept in
      (
        microseconds node.segment.start node.segment.now,
        microseconds node.segment.start node'.segment.now,
        get_time_server-now first start nodes i node ready lt leads at,
        get_time_server-now second start' after i node' (Reach-IsServing second steps ready') lt'
              leads' at'
            ∙ ap (λ s. some (after, microseconds s node'.segment.now)) started,
        elapsed node.segment.start node.segment.now le (omega (arith, fits)),
        elapsed node.segment.start node'.segment.now le' (omega (arith, fits')),
      )
