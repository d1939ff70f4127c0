-- ===== src/Sequencer/Numbers.antt =====
-- The numbers that the callers of `basket::global_sequence` get.
use basket.Prelude.{
  true, ◌==◌, ◌&&◌, Bool-cases, inl, inr, ℕ, zero, suc, ◌+◌, ◌%◌, ◌^◌, ◌<◌, ◌≤◌, ◌≡◌, refl, ap, ◌∙◌,
  arith, List, [], ◌∷◌, Option, some, get_elem?, set, get_elem?-set, lt-get_elem?, length, codes,
  ◌>>=◌, ==_refl, All,
}
use basket.Rpc.Names.{Dispatcher}
use basket.Rpc.Cluster.{Handle, Handler, Node, on_segment, at_pointer, RpcImplementation}
use basket.Rpc.Serve.{IsServing, Everywhere, on_segment_lem, IsServing-set, remote-on_segment}
use basket.Rpc.Wire.{Args, Reply, nothing, a_size, as_size}
use basket.Store
use basket.Sequencer.Defs.{
  get_next_sequence, local_get_next_sequence, get_next_sequence_func, bindings, construct,
  get_next_sequence_server,
}

-- The numbers after `v`, as many as asked for.
abbrev pub numbers : ℕ → ℕ → List ℕ
numbers v zero = []
numbers v (suc n) = (v + 1) ∷ numbers (v + 1) n

module _ (d : Dispatcher (Handler ℕ (Args ℕ ℕ) (Reply ℕ ℕ))) (impl : RpcImplementation) where
  -- A caller, with its pointer `value`.
  abbrev pub Asker : Type 0
  Asker = Handle × Option ℕ

  -- Where a caller would take the number from the segment, its pointer leads to the server it asks.
  abbrev pub Leads : ℕ → Asker → Type 0
  Leads i c = (i == c.0.my_server && c.0.server_on_node) ≡ true → c.1 ≡ some i

  -- The callers ask server `i`, one after the other.
  abbrev pub take_turns : ℕ → List Asker → List (Node d) → Option (List (Node d) × List ℕ)
  take_turns i [] nodes = some (nodes, [])
  take_turns i (c ∷ cs) nodes = get_next_sequence_server d c.0 c.1 i nodes >>= λ r.
      take_turns i cs r.0 >>= λ rs. some (rs.0, r.1 ∷ rs.1)

  next-on_segment :
      (c : Asker) (nodes : List (Node d)) (i : ℕ)
      → IsServing d (bindings impl) c.0 nodes
      → i < c.0.num_servers
      → Leads i c
      → get_next_sequence_server d c.0 c.1 i nodes ≡ on_segment d i local_get_next_sequence nodes
  unfolding get_next_sequence_server at_pointer bindings get_next_sequence_func
  next-on_segment (h, value) nodes i serving lt leads =
      elim (Bool-cases (i == h.my_server && h.server_on_node)) [
        | inl near ↦ rw (near, leads near) refl
        | inr away ↦ rw away (
            remote-on_segment d serving local_get_next_sequence (codes "_GetNextSequence") nothing
              a_size as_size get_next_sequence_func refl (λ s. refl) (λ b. refl) i lt)
      ]

  -- `GetNextSequence` is `GetNextSequenceServer` of the own server.
  get_next_sequence-own :
      (h : Handle) (value : Option ℕ) (nodes : List (Node d))
      → get_next_sequence d h value nodes ≡ get_next_sequence_server d h value h.my_server nodes
  unfolding get_next_sequence get_next_sequence_server
  get_next_sequence-own h value nodes = rw (==_refl h.my_server) refl

  -- What a caller of server `i` relies on.
  abbrev pub Asks : ℕ → List (Node d) → Asker → Type 0
  Asks i nodes c = (i < c.0.num_servers) × IsServing d (bindings impl) c.0 nodes × Leads i c

  Asks-set_each :
      (i : ℕ) (cs : List Asker) (nodes : List (Node d)) (node : Node d) (v : ℕ)
      → get_elem? nodes i ≡ some node
      → All (Asks i nodes) cs
      → All (Asks i (set nodes i (record node { segment = v }))) cs
  Asks-set_each i [] nodes node v at all = tt
  Asks-set_each i (c ∷ cs) nodes node v at ((lt, serving, leads), all) =
      ((lt, IsServing-set d serving i node v at, leads), Asks-set_each i cs nodes node v at all)

  -- Callers of the same servers, which have their functions, ask one server, one after the other. A
  -- caller can be on any node and have any of the servers as its own, but where it takes the number
  -- from the segment, its pointer leads to the server that it asks. Then they get the numbers that
  -- follow the value of that server, one each and in the order of their calls, as long as 64 bits hold
  -- them.
  pub take_turns-numbers :
      (i : ℕ) (cs : List Asker) (nodes : List (Node d)) (node : Node d)
      → All (Asks i nodes) cs
      → get_elem? nodes i ≡ some node
      → node.segment + length cs < 2 ^ 64
      → (after : List (Node d)) × (take_turns i cs nodes
          ≡ some (after, numbers node.segment (length cs)))
  unfolding local_get_next_sequence
  take_turns-numbers i [] nodes node all at fits = (nodes, refl)
  take_turns-numbers i (c ∷ cs) nodes node ((lt, serving, leads), all) at fits =
      let next = node.segment + 1 in
      let no_wrap : next % 2 ^ 64 ≡ next = omega (arith, fits) in
      let new : Node d = record node { segment = next } in
      let after = set nodes i new in
      let here : get_elem? after i ≡ some new =
        get_elem?-set nodes i i new (lt-get_elem? nodes i node at) ∙ rw (==_refl i) in
      let (last, run) =
        take_turns-numbers i cs after new (Asks-set_each i cs nodes node next at all) here
          (omega (arith, fits)) in
      let first : get_next_sequence_server d c.0 c.1 i nodes ≡ some (after, next) =
        next-on_segment c nodes i serving lt leads
        ∙ on_segment_lem d local_get_next_sequence nodes i node at
        ∙ ap (λ n. some (set nodes i (record node { segment = n }), n)) no_wrap in
      (last, rw (first, run))

  -- At most 2 ^ 16 servers that ran the constructor, each with a table that has no function under
  -- a name of the sequence, have their functions, and their values are 0.
  pub sequence_construct-IsServing :
      (h : Handle) (nodes : List (Node d))
      → length nodes ≡ h.num_servers
      → h.my_server < h.num_servers
      → h.num_servers ≤ 2 ^ 16
      → ((i : ℕ) (node : Node d)
          → get_elem? nodes i ≡ some node
          → (t : d.Table) × Store.IsFree d (bindings impl) h.func_prefix t
            × (node ≡ construct d impl h.func_prefix t))
      → IsServing d (bindings impl) h nodes × Everywhere d (λ v. v ≡ 0) nodes
  unfolding construct bindings
  sequence_construct-IsServing h nodes width home fits starts = (
    Store.Starts-IsServing d (bindings impl) h 0 nodes width home fits (refl, tt) starts,
    Store.Starts-Everywhere d (bindings impl) h 0 nodes width home fits (refl, tt) starts
        (λ v. v ≡ 0) refl,
  )
