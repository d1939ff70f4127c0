-- ===== src/Multimap/Remote.antt =====
-- `basket::multimap` on all servers, against one finite map.
use mathlib.Core.List.{Perm}
use mathlib.Core.Path.{fun_ext}
use basket.Prelude.{
  ℕ, ◌<◌, ◌≤◌, ◌^◌, ◌≡◌, refl, subst, ◌∙◌, Bool, true, arith, List, Option, none, some, get_elem?,
  length, is_some, codes,
}
use basket.Container.Order.{Order, same}
use basket.Container.Entries.{lookup}
use basket.Rpc.Names.{Dispatcher}
use basket.Rpc.Cluster.{Handle, Handler, Node, on_segment, remote, RpcImplementation}
use basket.Rpc.Serve.{route-on_segment, own-on_segment, remote-on_segment}
use basket.Rpc.Gather.{collect}
use basket.Rpc.Hashing.{key_int, key_int-lt}
use basket.Rpc.Wire.{
  Args, Reply, nothing, with_key, with_key_data, a_bool, a_value, some_pairs, as_bool, as_value,
  as_pairs,
}
use basket.Store
use basket.Store.{LocalStore, pair_of, assoc, update}
use basket.Multimap.Defs.{
  MyMultimap, local_put, local_get, local_erase, local_get_all_data_in_server,
  local_contains_in_server, put_func, get_func, erase_func, get_all_data_in_server_func,
  contains_in_server_func, bindings, construct, put, get, erase, contains_in_server, contains,
  get_all_data_in_server, get_all_data,
}
use basket.Multimap.Local.{multimap_store, contains_same, all-elements}

module _ {K V : Type 0} ⦃o : Order K⦄ (boost : MyMultimap K V) (mapped : V) (within : K → K → Bool)
    (d : Dispatcher (Handler boost.T (Args K V) (Reply K V))) (impl : RpcImplementation)
    (key_hash : K → ℕ) (h : Handle) (nodes : List (Node d)) where
  -- The server that a key belongs to.
  abbrev pub owner : K → ℕ
  owner k = key_int (key_hash k) h.num_servers

  abbrev pub IsValid : Type 0
  IsValid =
      Store.IsValid (multimap_store boost mapped within) d (bindings boost mapped within impl) h
        owner nodes

  abbrev pub held : K → Option V
  held =
      Store.held (multimap_store boost mapped within) d (bindings boost mapped within impl) h owner
        nodes

  -- An operation ends with the result `b`, on valid servers that hold `f`.
  abbrev pub Becomes : {B : Type 0} → Option (List (Node d) × B) → B → (K → Option V) → Type 0
  Becomes =
      Store.Becomes (multimap_store boost mapped within) d (bindings boost mapped within impl) h
        owner

  module _ (valid : IsValid) where
    owner-lt : (k : K) → owner k < h.num_servers
    owner-lt k = key_int-lt (key_hash k) (omega (arith, valid.serving.home))

    put-on_segment :
        (k : K) (v : V)
        → put boost mapped within d key_hash h k v nodes
          ≡ on_segment d (owner k) (local_put boost mapped within k v) nodes
    unfolding put bindings put_func
    put-on_segment k v =
        route-on_segment d valid.serving (local_put boost mapped within k v) (codes "_Put")
          (with_key_data k v) a_bool as_bool (put_func boost mapped within) refl (λ s. refl)
          (λ b. refl) (owner k) (owner-lt k)

    get-on_segment :
        (k : K)
        → get boost mapped within d key_hash h k nodes
          ≡ on_segment d (owner k) (local_get boost mapped within k) nodes
    unfolding get bindings get_func
    get-on_segment k =
        route-on_segment d valid.serving (local_get boost mapped within k) (codes "_Get")
          (with_key k) a_value as_value (get_func boost mapped within) refl (λ s. refl) (λ b. refl)
          (owner k) (owner-lt k)

    erase-on_segment :
        (k : K)
        → erase boost mapped within d key_hash h k nodes
          ≡ on_segment d (owner k) (local_erase boost mapped within k) nodes
    unfolding erase bindings erase_func
    erase-on_segment k =
        route-on_segment d valid.serving (local_erase boost mapped within k) (codes "_Erase")
          (with_key k) a_value as_value (erase_func boost mapped within) refl (λ s. refl)
          (λ b. refl) (owner k) (owner-lt k)

    -- On valid servers, `Put` succeeds from every caller: afterwards the servers are valid, hold
    -- the value under the key, and what they held under every other key.
    pub multimap_put-Becomes :
        (k : K) (v : V)
        → Becomes
            (put boost mapped within d key_hash h k v nodes)
            true
            (update same held k (some v))
    multimap_put-Becomes k v = rw (put-on_segment k v) (
        Store.put-Becomes (multimap_store boost mapped within) d (bindings boost mapped within impl)
          h owner owner-lt nodes valid k v)

    -- On valid servers, `Get` succeeds from every caller, changes nothing, and returns what the
    -- servers hold under the key, or the flag `false` with the default value.
    pub multimap_get-held :
        (k : K)
        → get boost mapped within d key_hash h k nodes ≡ some (nodes, pair_of mapped (held k))
    multimap_get-held k =
        get-on_segment k
        ∙ Store.get-held (multimap_store boost mapped within) d (bindings boost mapped within impl)
            h owner owner-lt nodes valid k

    -- On valid servers, `Erase` succeeds from every caller, says whether the key was there, and
    -- returns the default value; afterwards the servers are valid, hold nothing under the key,
    -- and what they held under every other key.
    pub multimap_erase-Becomes :
        (k : K)
        → Becomes
            (erase boost mapped within d key_hash h k nodes)
            (is_some (held k), mapped)
            (update same held k none)
    multimap_erase-Becomes k = rw (erase-on_segment k) (
        Store.erase-Becomes (multimap_store boost mapped within) d
          (bindings boost mapped within impl) h owner owner-lt nodes valid k)

    -- On valid servers, `GetAllData` succeeds from every caller and changes nothing. A search of
    -- its pairs for a key finds what the servers hold under it, and the pairs are those of all
    -- servers, each as often, in some order.
    pub multimap_get_all_data-held :
        (out : List (K × V)) × (get_all_data boost mapped within d key_hash h nodes
          ≡ some (nodes, out))
        × ((j : K) → assoc same j out ≡ held j)
        × Perm out (collect d boost.elements nodes)
    unfolding get_all_data get_all_data_in_server bindings get_all_data_in_server_func
    multimap_get_all_data-held =
        let op = local_get_all_data_in_server boost mapped within in
        let f = get_all_data_in_server_func boost mapped within in
        let (out, run, found, perm) =
          Store.gather-held (multimap_store boost mapped within) d
            (bindings boost mapped within impl) h owner owner-lt nodes valid
            (get_all_data_in_server boost mapped within d key_hash h)
            (λ i. remote d h (codes "_GetAllData") i nothing as_pairs)
            (own-on_segment d valid.serving op (codes "_GetAllData") nothing some_pairs as_pairs f
              refl (λ s. refl) (λ b. refl))
            (remote-on_segment d valid.serving op (codes "_GetAllData") nothing some_pairs as_pairs
              f refl (λ s. refl) (λ b. refl)) in
        (
          out,
          run,
          found,
          subst (λ g. Perm out (collect d g nodes)) (fun_ext (all-elements boost mapped within))
              perm,
        )

    -- `Contains` succeeds, changes nothing, and returns what the scans of all servers found.
    pub multimap_contains-perm :
        (k : K)
        → (out : List (K × V)) × (contains boost mapped within d key_hash h k nodes
            ≡ some (nodes, out))
          × Perm out (collect d (λ m. (local_contains_in_server boost mapped within k m).1) nodes)
    unfolding contains contains_in_server bindings contains_in_server_func
    multimap_contains-perm k =
        let op = local_contains_in_server boost mapped within k in
        Store.gather-perm (multimap_store boost mapped within) d (bindings boost mapped within impl)
          h owner owner-lt nodes valid op (contains_in_server boost mapped within d key_hash h k)
          (λ i. remote d h (codes "_Contains") i (with_key k) as_pairs)
          (contains_same boost mapped within k)
          (own-on_segment d valid.serving op (codes "_Contains") (with_key k) some_pairs as_pairs
            (contains_in_server_func boost mapped within) refl (λ s. refl) (λ b. refl))
          (remote-on_segment d valid.serving op (codes "_Contains") (with_key k) some_pairs as_pairs
            (contains_in_server_func boost mapped within) refl (λ s. refl) (λ b. refl))

  -- At most 2 ^ 16 servers that ran the constructor, each with a table that has no function under
  -- a name of the container, are valid and hold nothing.
  pub multimap_construct-IsValid :
      length nodes ≡ h.num_servers
      → h.my_server < h.num_servers
      → h.num_servers ≤ 2 ^ 16
      → ((i : ℕ) (node : Node d)
          → get_elem? nodes i ≡ some node
          → (t : d.Table) × Store.IsFree d (bindings boost mapped within impl) h.func_prefix t
            × (node ≡ construct boost mapped within d impl h.func_prefix t))
      → IsValid × ((k : K) → held k ≡ none)
  unfolding construct bindings lookup
  multimap_construct-IsValid width home fits starts =
      Store.Starts-IsValid d (bindings boost mapped within impl) h boost.empty nodes width home fits
        (refl, (refl, (refl, (refl, (refl, tt))))) starts (multimap_store boost mapped within) owner
        (rw boost.elements-empty tt) (λ k. rw boost.elements-empty)
