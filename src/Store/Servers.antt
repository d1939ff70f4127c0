-- ===== src/Store/Servers.antt =====
-- A container that meets the contract on each server, on all of them together, for any choice of an owner
-- for each key.
use mathlib.Core.List.{Perm}
use basket.Prelude.{
  ℕ, ◌<◌, ◌≡◌, refl, ap, sym, ◌∙◌, true, false, if◌then◌else◌, ◌==◌, arith, List, Option, none,
  some, Option-cases, get_elem?, get_elem?-set, lt-get_elem?, get_elem?-lt, set, set_cases, length,
  Bool-cases, is_some, inl, inr, subst,
}
use basket.Rpc.Names.{Name, Dispatcher}
use basket.Rpc.Cluster.{Handle, Handler, Node, on_segment, gather}
use basket.Rpc.Serve.{
  IsServing, Everywhere, server, on_segment_lem, on_segment_read, IsServing-set, Everywhere-set,
}
use basket.Rpc.Gather.{
  gathered, gathered-perm-collect, gather-gathered, look-gathered, values_at, values_of, collect,
}
use basket.Store.Contract.{LocalStore, pair_of, assoc, assoc-append, update}

-- A read of every server returns what each of them has.
module _ {S Args Reply E : Type 0} (d : Dispatcher (Handler S Args Reply))
    (op : S → S × List E) where
  pub on_segment-values_at :
      (nodes : List (Node d)) (i : ℕ)
      → ((s : S) → (op s).0 ≡ s)
      → i < length nodes
      → on_segment d i op nodes ≡ some (nodes, values_at d (λ s. (op s).1) nodes i)
  on_segment-values_at nodes i same lt =
      let (node, at) = get_elem?-lt nodes i lt in
      on_segment_read d op nodes i node at same
      ∙ ap (λ o. some (nodes, values_of d (λ s. (op s).1) o)) (sym at)

module _ {S K V Args Reply : Type 0} (store : LocalStore S K V)
    (d : Dispatcher (Handler S Args Reply)) (bindings : List (Name × Handler S Args Reply))
    (h : Handle) (owner : K → ℕ) where
  open store use {equal, mapped, view}

  -- What the servers hold under a key: what the owner of the key holds.
  abbrev pub read : Option (Node d) → K → Option V
  read none j = none
  read (some node) j = view node.segment j

  abbrev pub held : List (Node d) → K → Option V
  held nodes j = read (get_elem? nodes (owner j)) j

  -- Every server has its functions and a valid container, with no key that belongs elsewhere.
  pub record IsValid (nodes : List (Node d)) : Type 0 where
    pub serving : IsServing d bindings h nodes
    pub valid : Everywhere d store.IsValid nodes
    pub placed :
        (i : ℕ) (node : Node d)
        → get_elem? nodes i ≡ some node
        → (j : K) → (owner j == i) ≡ false
        → view node.segment j ≡ none

  -- An operation ends normally with the result `b`, on valid servers that hold `f`.
  abbrev pub Becomes : {B : Type 0} → Option (List (Node d) × B) → B → (K → Option V) → Type 0
  Becomes r b f =
      (nodes : List (Node d)) × (r ≡ some (nodes, b))
      × IsValid nodes
      × ((j : K) → held nodes j ≡ f j)

  module _ (owner-lt : (j : K) → owner j < h.num_servers) (nodes : List (Node d))
      (valid : IsValid nodes) where
    held_at :
        (k : K) (node : Node d)
        → get_elem? nodes (owner k) ≡ some node
        → held nodes k ≡ view node.segment k
    held_at k node at = ap (λ o. read o k) at

    -- The segment of the owner of `k` is replaced by `s`, which reads `v` at `k`.
    module _ (k : K) (v : Option V) where
      module _ (node : Node d) (at : get_elem? nodes (owner k) ≡ some node) (s : S)
          (reads : (j : K) → view s j ≡ (if equal k j then v else view node.segment j)) where
        unmoved :
            (j : K)
            → (owner j == owner k) ≡ false
            → (if equal k j then v else view node.segment j) ≡ none
        unmoved j away = elim (Bool-cases (equal k j)) [
          | inl e ↦
              let same_owner : owner k ≡ owner j = ap owner (store.equal-eq k j e) in
              absurd (ground arith)
          | inr differ ↦ rw differ (valid.placed (owner k) node at j away)
        ]

        placed-set :
            (i : ℕ) (other : Node d)
            → get_elem? (set nodes (owner k) (record node { segment = s })) i ≡ some other
            → (j : K) → (owner j == i) ≡ false
            → view other.segment j ≡ none
        placed-set i other found j away =
            elim (set_cases nodes (owner k) i (record node { segment = s }) other found) [
              | inr old ↦ valid.placed i other old j away
              | inl (e, new) ↦
                  let away_k : (owner j == owner k) ≡ false = rw e away in
                  subst (λ x. view x.segment j ≡ none) new (reads j ∙ unmoved j away_k)
            ]

        other :
            (j : K) → (owner k == owner j) ≡ false → held nodes j ≡ update equal (held nodes) k v j
        other j differ = elim (Bool-cases (equal k j)) [
          | inl e ↦
              let same_owner : owner k ≡ owner j = ap owner (store.equal-eq k j e) in
              absurd (ground arith)
          | inr apart ↦ rw apart
        ]

        held-set :
            (j : K)
            → held (set nodes (owner k) (record node { segment = s })) j
              ≡ update equal (held nodes) k v j
        held-set j =
            ap (λ o. read o j)
              (get_elem?-set nodes (owner k) (owner j) _ (lt-get_elem? nodes _ node at))
            ∙ elim (Bool-cases (owner k == owner j)) [
              | inl same ↦
                  let e : owner k ≡ owner j = ground arith in
                  let here : held nodes j ≡ view node.segment j = held_at j node (rw (← e) at) in
                  rw same (reads j ∙ rw here)
              | inr differ ↦ rw differ (other j differ)
            ]

    -- A write to the owner of a key.
    pub writes :
        {B : Type 0} (k : K) (v : Option V) (op : S → S × B) (b : B)
        → ((s : S) → store.IsValid s → store.IsValid (op s).0)
        → ((s : S) → store.IsValid s → view s k ≡ held nodes k → (op s).1 ≡ b)
        → ((s : S) (j : K)
            → store.IsValid s
            → view (op s).0 j ≡ (if equal k j then v else view s j))
        → Becomes (on_segment d (owner k) op nodes) b (update equal (held nodes) k v)
    writes k v op b keeps returns reads =
        let (node, at) = server d valid.serving (owner k) (owner-lt k) in
        let old = node.segment in
        let ok = valid.valid (owner k) node at in
        let s = (op old).0 in
        let reads_s = λ (j : K). reads old j ok in
        let result : (op old).1 ≡ b = returns old ok (sym (held_at k node at)) in
        let after = set nodes (owner k) (record node { segment = s }) in
        (
          after,
          on_segment_lem d op nodes (owner k) node at ∙ ap (λ r. some (after, r)) result,
          record {
            serving = IsServing-set d valid.serving (owner k) node s at;
            valid =
                Everywhere-set d store.IsValid nodes (owner k) node s (keeps old ok) valid.valid;
            placed = placed-set k v node at s reads_s;
          },
          held-set k v node at s reads_s,
        )

    pub put-Becomes :
        (k : K) (v : V)
        → Becomes
            (on_segment d (owner k) (store.put k v) nodes)
            true
            (update equal (held nodes) k (some v))
    put-Becomes k v =
        writes k (some v) (store.put k v) true (store.put-IsValid k v)
          (λ s _ _. store.put-true k v s) (λ s j ok. store.view-put k v s j ok)

    pub erase-Becomes :
        (k : K)
        → Becomes
            (on_segment d (owner k) (store.erase k) nodes)
            (is_some (held nodes k), mapped)
            (update equal (held nodes) k none)
    erase-Becomes k =
        writes k none (store.erase k) _ (store.erase-IsValid k)
          (λ s ok e. store.erase-is_some k s ok ∙ ap (λ o. (is_some o, mapped)) e)
          (λ s j ok. store.view-erase k s j ok)

    pub get-held :
        (k : K)
        → on_segment d (owner k) (store.get k) nodes ≡ some (nodes, pair_of mapped (held nodes k))
    get-held k =
        let (node, at) = server d valid.serving (owner k) (owner-lt k) in
        let ok = valid.valid (owner k) node at in
        on_segment_read d (store.get k) nodes (owner k) node at (store.get_same k)
        ∙ ap (λ r. some (nodes, r)) (store.get-view k node.segment ok)
        ∙ ap (λ o. some (nodes, pair_of mapped o)) (sym (held_at k node at))

    assoc-values_at :
        (i : ℕ) (j : K)
        → assoc equal j (values_at d (λ s. (store.get_all s).1) nodes i)
          ≡ read (get_elem? nodes i) j
    assoc-values_at i j = elim (Option-cases (get_elem? nodes i)) [
      | inl e ↦
          ap (λ o. assoc equal j (values_of d (λ s. (store.get_all s).1) o)) e
          ∙ ap (λ o. read o j) (sym e)
      | inr (node, e) ↦
          ap (λ o. assoc equal j (values_of d (λ s. (store.get_all s).1) o)) e
          ∙ store.assoc-get_all node.segment j (valid.valid i node e)
          ∙ ap (λ o. read o j) (sym e)
    ]

    elsewhere : (i : ℕ) (j : K) → (owner j == i) ≡ false → read (get_elem? nodes i) j ≡ none
    elsewhere i j away = elim (Option-cases (get_elem? nodes i)) [
      | inl e ↦ rw e
      | inr (node, e) ↦ rw e (valid.placed i node e j away)
    ]

    -- A gathering of any read of every server returns what each of them answers.
    pub gather-perm :
        {E : Type 0} (op : S → S × List E)
        (current : List (Node d) → Option (List (Node d) × List E))
        (ask : ℕ → List (Node d) → Option (List (Node d) × List E))
        → ((s : S) → (op s).0 ≡ s)
        → current nodes ≡ on_segment d h.my_server op nodes
        → ((i : ℕ) → i < h.num_servers → ask i nodes ≡ on_segment d i op nodes)
        → (out : List E) × (gather d h current ask nodes ≡ some (nodes, out))
          × Perm out (collect d (λ s. (op s).1) nodes)
    gather-perm op current ask same mine asked =
        let values = values_at d (λ s. (op s).1) nodes in
        let width = valid.serving.width in
        let reads = λ (i : ℕ) (lt : i < h.num_servers).
          on_segment-values_at d op nodes i same (rw width lt) in
        (
          gathered h.my_server h.num_servers values,
          gather-gathered d h nodes values current ask (mine ∙ reads h.my_server valid.serving.home)
              (λ i lt. asked i lt ∙ reads i lt),
          rw (← width) (
              gathered-perm-collect d h.my_server nodes (λ s. (op s).1)
                (rw width valid.serving.home)),
        )

    -- A gathering of what every server has holds each key once, with the value that is held.
    pub gather-held :
        (current : List (Node d) → Option (List (Node d) × List (K × V)))
        (ask : ℕ → List (Node d) → Option (List (Node d) × List (K × V)))
        → current nodes ≡ on_segment d h.my_server store.get_all nodes
        → ((i : ℕ) → i < h.num_servers → ask i nodes ≡ on_segment d i store.get_all nodes)
        → (out : List (K × V)) × (gather d h current ask nodes ≡ some (nodes, out))
          × ((j : K) → assoc equal j out ≡ held nodes j)
          × Perm out (collect d (λ s. (store.get_all s).1) nodes)
    gather-held current ask mine asked =
        let all = λ (s : S). (store.get_all s).1 in
        let values = values_at d all nodes in
        let width = valid.serving.width in
        let reads = λ (i : ℕ) (lt : i < h.num_servers).
          on_segment-values_at d store.get_all nodes i store.get_all_same (rw width lt) in
        (
          gathered h.my_server h.num_servers values,
          gather-gathered d h nodes values current ask (mine ∙ reads h.my_server valid.serving.home)
              (λ i lt. asked i lt ∙ reads i lt),
          (λ j.
              look-gathered (assoc equal j) refl (assoc-append equal j) values (owner j)
                (λ i away. assoc-values_at i j ∙ elsewhere i j (ground arith)) h.my_server
                h.num_servers (owner-lt j)
              ∙ assoc-values_at (owner j) j),
          rw (← width)
              (gathered-perm-collect d h.my_server nodes all (rw width valid.serving.home)),
        )
