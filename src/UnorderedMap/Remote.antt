-- ===== src/UnorderedMap/Remote.antt =====
-- `basket::unordered_map` on all servers, against one finite map.
use mathlib.Core.List.{Perm}
use mathlib.Core.Path.{fun_ext}
use basket.Prelude.{
  ℕ, ◌<◌, ◌≤◌, ◌^◌, ◌≡◌, refl, ap, sym, subst, ◌∙◌, true, false, ◌==◌, arith, List, Option, none,
  some, get_elem?, get_elem?-set, lt-get_elem?, set, length, is_some, codes,
}
use basket.Container.Hashed.{Key, HashMap}
use basket.Rpc.Names.{Dispatcher}
use basket.Rpc.Cluster.{Handle, Handler, Node, on_segment, remote, RpcImplementation}
use basket.Rpc.Serve.{
  server, on_segment_lem, on_segment_read, IsServing-set, IsServing, route-on_segment,
  own-on_segment, remote-on_segment,
}
use basket.Rpc.Gather.{collect}
use basket.Rpc.Hashing.{key_int, key_int-lt}
use basket.Rpc.Wire.{
  Args, Reply, nothing, with_key, with_key_data, a_bool, a_value, some_pairs, as_bool, as_value,
  as_pairs,
}
use basket.Store
use basket.Store.{LocalStore, pair_of, assoc, update}
use basket.UnorderedMap.Defs.{
  local_put, local_get, local_erase, local_get_all_data_in_server, put_func, get_func, erase_func,
  get_all_data_in_server_func, bindings, construct, put_key_int, put, get, erase,
  get_all_data_in_server, get_all_data,
}
use basket.UnorderedMap.Local.{hash_store, all-entries, put-true, get-find, get_same}

module _ {K V : Type 0} {key : Key K} (boost : HashMap V key) (mapped : V)
    (d : Dispatcher (Handler boost.T (Args K V) (Reply K V))) (impl : RpcImplementation)
    (key_hash : K → ℕ) (h : Handle) (nodes : List (Node d))
    (serving : IsServing d (bindings boost mapped impl) h nodes) where
  put_key_int-lt : (k : K) → put_key_int (key_hash k) h.num_servers < h.num_servers
  unfolding put_key_int
  put_key_int-lt k = omega (arith, serving.home)

  put-on_segment :
      (k : K) (v : V)
      → put boost mapped d key_hash h k v nodes
        ≡ on_segment d (put_key_int (key_hash k) h.num_servers) (local_put boost mapped k v) nodes
  unfolding put bindings put_func
  put-on_segment k v =
      route-on_segment d serving (local_put boost mapped k v) (codes "_Put") (with_key_data k v)
        a_bool as_bool (put_func boost mapped) refl (λ s. refl) (λ b. refl)
        (put_key_int (key_hash k) h.num_servers) (put_key_int-lt k)

  get-on_segment :
      (k : K)
      → get boost mapped d key_hash h k nodes
        ≡ on_segment d (key_int (key_hash k) h.num_servers) (local_get boost mapped k) nodes
  unfolding get bindings get_func
  get-on_segment k =
      route-on_segment d serving (local_get boost mapped k) (codes "_Get") (with_key k) a_value
        as_value (get_func boost mapped) refl (λ s. refl) (λ b. refl)
        (key_int (key_hash k) h.num_servers) (key_int-lt (key_hash k) (omega (arith, serving.home)))

module _ {K V : Type 0} {key : Key K} (boost : HashMap V key) (mapped : V)
    (d : Dispatcher (Handler boost.T (Args K V) (Reply K V))) (impl : RpcImplementation)
    (key_hash : K → ℕ) (h : Handle) (nodes : List (Node d)) where
  -- The server that a key belongs to.
  abbrev pub owner : K → ℕ
  owner k = key_int (key_hash k) h.num_servers

  abbrev pub IsValid : Type 0
  IsValid = Store.IsValid (hash_store boost mapped) d (bindings boost mapped impl) h owner nodes

  abbrev pub held : K → Option V
  held = Store.held (hash_store boost mapped) d (bindings boost mapped impl) h owner nodes

  -- An operation ends with the result `b`, on valid servers that hold `f`.
  abbrev pub Becomes : {B : Type 0} → Option (List (Node d) × B) → B → (K → Option V) → Type 0
  Becomes = Store.Becomes (hash_store boost mapped) d (bindings boost mapped impl) h owner

  module _ (valid : IsValid) where
    owner-lt : (k : K) → owner k < h.num_servers
    owner-lt k = key_int-lt (key_hash k) (omega (arith, valid.serving.home))

    erase-on_segment :
        (k : K)
        → erase boost mapped d key_hash h k nodes
          ≡ on_segment d (owner k) (local_erase boost mapped k) nodes
    unfolding erase bindings erase_func
    erase-on_segment k =
        route-on_segment d valid.serving (local_erase boost mapped k) (codes "_Erase") (with_key k)
          a_value as_value (erase_func boost mapped) refl (λ s. refl) (λ b. refl) (owner k)
          (owner-lt k)

    -- On valid servers, `Put` succeeds from every caller, where it computes the same server for
    -- the key as the other operations: afterwards the servers are valid, hold the value under the
    -- key, and what they held under every other key.
    pub unordered_map_put-Becomes :
        (k : K) (v : V)
        → put_key_int (key_hash k) h.num_servers ≡ owner k
        → Becomes (put boost mapped d key_hash h k v nodes) true (update key.equal held k (some v))
    unordered_map_put-Becomes k v same_server =
        rw (put-on_segment boost mapped d impl key_hash h nodes valid.serving k v, same_server)
          (Store.put-Becomes (hash_store boost mapped) d (bindings boost mapped impl) h owner
            owner-lt nodes valid k v)

    -- On valid servers, where `Put` computes another server for the key than `Get`, it reports
    -- success, and a `Get` of the same key afterwards still returns what the servers held before.
    pub put_lost :
        (k : K) (v : V)
        → (put_key_int (key_hash k) h.num_servers == owner k) ≡ false
        → (after : List (Node d)) × (put boost mapped d key_hash h k v nodes ≡ some (after, true))
          × (get boost mapped d key_hash h k after ≡ some (after, pair_of mapped (held k)))
    put_lost k v other_server =
        let i = put_key_int (key_hash k) h.num_servers in
        let (node, at) =
          server d valid.serving i
            (put_key_int-lt boost mapped d impl key_hash h nodes valid.serving k) in
        let (home, found) = server d valid.serving (owner k) (owner-lt k) in
        let s = (local_put boost mapped k v node.segment).0 in
        let after = set nodes i (record node { segment = s }) in
        let serving = IsServing-set d valid.serving i node s at in
        let kept : get_elem? after (owner k) ≡ some home =
          get_elem?-set nodes i (owner k) _ (lt-get_elem? nodes i node at)
          ∙ (rw other_server found) in
        (
          after,
          put-on_segment boost mapped d impl key_hash h nodes valid.serving k v
              ∙ on_segment_lem d (local_put boost mapped k v) nodes i node at
              ∙ ap (λ b. some (after, b)) (put-true boost mapped k v node.segment),
          get-on_segment boost mapped d impl key_hash h after serving k
              ∙ on_segment_read d (local_get boost mapped k) after (owner k) home kept
                  (get_same boost mapped k)
              ∙ ap (λ r. some (after, r)) (get-find boost mapped k home.segment)
              ∙ ap (λ x. some (after, pair_of mapped x))
                  (sym (
                    ap
                      (λ x.
                        Store.read (hash_store boost mapped) d (bindings boost mapped impl) h owner
                          x k)
                      found)),
        )

    -- On valid servers, `Get` succeeds from every caller, changes nothing, and returns what the
    -- servers hold under the key, or the flag `false` with the default value.
    pub unordered_map_get-held :
        (k : K) → get boost mapped d key_hash h k nodes ≡ some (nodes, pair_of mapped (held k))
    unordered_map_get-held k =
        get-on_segment boost mapped d impl key_hash h nodes valid.serving k
        ∙ Store.get-held (hash_store boost mapped) d (bindings boost mapped impl) h owner owner-lt
            nodes valid k

    -- On valid servers, `Erase` succeeds from every caller, says whether the key was there, and
    -- returns the default value; afterwards the servers are valid, hold nothing under the key,
    -- and what they held under every other key.
    pub unordered_map_erase-Becomes :
        (k : K)
        → Becomes
            (erase boost mapped d key_hash h k nodes)
            (is_some (held k), mapped)
            (update key.equal held k none)
    unordered_map_erase-Becomes k = rw (erase-on_segment k) (
        Store.erase-Becomes (hash_store boost mapped) d (bindings boost mapped impl) h owner
          owner-lt nodes valid k)

    -- On valid servers, `GetAllData` succeeds from every caller and changes nothing. A search of
    -- its pairs for a key finds what the servers hold under it, and the pairs are those of all
    -- servers, each as often, in some order.
    pub unordered_map_get_all_data-held :
        (out : List (K × V)) × (get_all_data boost mapped d key_hash h nodes ≡ some (nodes, out))
        × ((j : K) → assoc key.equal j out ≡ held j)
        × Perm out (collect d boost.entries nodes)
    unfolding get_all_data get_all_data_in_server bindings get_all_data_in_server_func
    unordered_map_get_all_data-held =
        let op = local_get_all_data_in_server boost mapped in
        let f = get_all_data_in_server_func boost mapped in
        let (out, run, found, perm) =
          Store.gather-held (hash_store boost mapped) d (bindings boost mapped impl) h owner
            owner-lt nodes valid (get_all_data_in_server boost mapped d key_hash h)
            (λ i. remote d h (codes "_GetAllData") i nothing as_pairs)
            (own-on_segment d valid.serving op (codes "_GetAllData") nothing some_pairs as_pairs f
              refl (λ s. refl) (λ b. refl))
            (remote-on_segment d valid.serving op (codes "_GetAllData") nothing some_pairs as_pairs
              f refl (λ s. refl) (λ b. refl)) in
        (
          out,
          run,
          found,
          subst (λ g. Perm out (collect d g nodes)) (fun_ext (all-entries boost mapped)) perm,
        )

  -- At most 2 ^ 16 servers that ran the constructor, each with a table that has no function under
  -- a name of the container, are valid and hold nothing.
  pub unordered_map_construct-IsValid :
      length nodes ≡ h.num_servers
      → h.my_server < h.num_servers
      → h.num_servers ≤ 2 ^ 16
      → ((i : ℕ) (node : Node d)
          → get_elem? nodes i ≡ some node
          → (t : d.Table) × Store.IsFree d (bindings boost mapped impl) h.func_prefix t
            × (node ≡ construct boost mapped d impl h.func_prefix t))
      → IsValid × ((k : K) → held k ≡ none)
  unfolding construct bindings
  unordered_map_construct-IsValid width home fits starts =
      Store.Starts-IsValid d (bindings boost mapped impl) h boost.empty nodes width home fits
        (refl, (refl, (refl, (refl, tt)))) starts (hash_store boost mapped) owner tt
        boost.find-empty
