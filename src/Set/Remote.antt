-- ===== src/Set/Remote.antt =====
-- `basket::set` on all servers, against one finite set.
use mathlib.Core.List.{Perm}
use mathlib.Core.Path.{fun_ext}
use basket.Prelude.{
  ℕ, ◌<◌, ◌≤◌, ◌^◌, ◌≡◌, refl, ap, sym, subst, ◌∙◌, true, arith, List, Option, none, some,
  get_elem?, length, is_some, codes,
}
use basket.Container.Order.{Order, same}
use basket.Container.Entries.{lookup}
use basket.Rpc.Names.{Dispatcher, Distinct}
use basket.Rpc.Cluster.{
  Handle, Handler, Node, on_segment, remote, RpcImplementation, rpclib, thallium_tcp, thallium_roce,
}
use basket.Rpc.Serve.{server, on_segment_read, route-on_segment, own-on_segment, remote-on_segment}
use basket.Rpc.Gather.{collect}
use basket.Rpc.Hashing.{key_int, key_int-lt}
use basket.Rpc.Wire.{
  Args, Reply, nothing, with_key, with_range, a_bool, some_keys, as_bool, as_keys,
}
use basket.Store
use basket.Store.{LocalStore, pair_of, assoc, update}
use basket.Set.Defs.{
  MySet, local_put, local_get, local_erase, local_get_all_data_in_server, local_contains_in_server,
  put_func, get_func, erase_func, get_all_data_in_server_func, contains_in_server_func, bindings,
  construct, put, get, erase, contains_in_server, contains, get_all_data_in_server, get_all_data,
}
use basket.Set.Local.{has, get-has, get_same, erase-has, erase-IsSorted}
use basket.Set.Member.{set_store, all-elements, all_same, contains_same, view-erase, is_some-member}

bindings-Distinct :
    {K : Type 0} ⦃o : Order K⦄ (boost : MySet K) (fallback : K) (impl : RpcImplementation)
    → Distinct (bindings boost fallback impl)
unfolding bindings
bindings-Distinct boost fallback rpclib =
    (refl, (refl, (refl, (refl, (refl, (refl, (refl, (refl, (refl, tt)))))))))
bindings-Distinct boost fallback thallium_tcp =
    (refl, (refl, (refl, (refl, (refl, (refl, (refl, (refl, tt))))))))
bindings-Distinct boost fallback thallium_roce =
    (refl, (refl, (refl, (refl, (refl, (refl, (refl, (refl, tt))))))))

module _ {K : Type 0} ⦃o : Order K⦄ (boost : MySet K) (fallback : K)
    (d : Dispatcher (Handler boost.T (Args K K) (Reply K K))) (impl : RpcImplementation)
    (key_hash : K → ℕ) (h : Handle) (nodes : List (Node d)) where
  -- The server that a key belongs to.
  abbrev pub owner : K → ℕ
  owner k = key_int (key_hash k) h.num_servers

  abbrev pub IsValid : Type 0
  IsValid = Store.IsValid (set_store boost fallback) d (bindings boost fallback impl) h owner nodes

  -- The keys that the servers hold.
  abbrev pub held : K → Option {0} Unit
  held = Store.held (set_store boost fallback) d (bindings boost fallback impl) h owner nodes

  -- An operation ends with the result `b`, on valid servers that hold `f`.
  abbrev pub Becomes :
      {B : Type 0} → Option (List (Node d) × B) → B → (K → Option {0} Unit) → Type 0
  Becomes = Store.Becomes (set_store boost fallback) d (bindings boost fallback impl) h owner

  module _ (valid : IsValid) where
    owner-lt : (k : K) → owner k < h.num_servers
    owner-lt k = key_int-lt (key_hash k) (omega (arith, valid.serving.home))

    put-on_segment :
        (k : K)
        → put boost fallback d key_hash h k nodes
          ≡ on_segment d (owner k) (local_put boost fallback k) nodes
    unfolding put bindings put_func
    put-on_segment k =
        route-on_segment d valid.serving (local_put boost fallback k) (codes "_Put") (with_key k)
          a_bool as_bool (put_func boost fallback) refl (λ s. refl) (λ b. refl) (owner k)
          (owner-lt k)

    get-on_segment :
        (k : K)
        → get boost fallback d key_hash h k nodes
          ≡ on_segment d (owner k) (local_get boost fallback k) nodes
    unfolding get bindings get_func
    get-on_segment k =
        route-on_segment d valid.serving (local_get boost fallback k) (codes "_Get") (with_key k)
          a_bool as_bool (get_func boost fallback) refl (λ s. refl) (λ b. refl) (owner k)
          (owner-lt k)

    erase-on_segment :
        (k : K)
        → erase boost fallback d key_hash h k nodes
          ≡ on_segment d (owner k) (local_erase boost fallback k) nodes
    unfolding erase bindings erase_func
    erase-on_segment k =
        route-on_segment d valid.serving (local_erase boost fallback k) (codes "_Erase")
          (with_key k) a_bool as_bool (erase_func boost fallback) refl (λ s. refl) (λ b. refl)
          (owner k) (owner-lt k)

    -- On valid servers, `Put` succeeds from every caller: afterwards the servers are valid and
    -- hold the key, and the other keys that they held before.
    pub set_put-Becomes :
        (k : K)
        → Becomes (put boost fallback d key_hash h k nodes) true (update same held k (some tt))
    set_put-Becomes k = rw (put-on_segment k) (
        Store.put-Becomes (set_store boost fallback) d (bindings boost fallback impl) h owner
          owner-lt nodes valid k tt)

    -- On valid servers, `Get` succeeds from every caller, changes nothing, and says whether the
    -- servers hold the key.
    pub set_get-held :
        (k : K) → get boost fallback d key_hash h k nodes ≡ some (nodes, is_some (held k))
    set_get-held k =
        let (node, at) = server d valid.serving (owner k) (owner-lt k) in
        get-on_segment k
        ∙ on_segment_read d (local_get boost fallback k) nodes (owner k) node at
            (get_same boost fallback k)
        ∙ ap (λ b. some (nodes, b))
            (get-has boost fallback k node.segment (valid.valid (owner k) node at)
              ∙ sym (is_some-member (has k (boost.elements node.segment)))
              ∙ ap
                  (λ o. is_some (
                    Store.read (set_store boost fallback) d (bindings boost fallback impl) h owner o
                      k))
                  (sym at))

    -- On valid servers, `Erase` succeeds from every caller and says whether the servers held the
    -- key; afterwards they are valid and hold the other keys that they held before.
    pub set_erase-Becomes :
        (k : K)
        → Becomes
            (erase boost fallback d key_hash h k nodes)
            (is_some (held k))
            (update same held k none)
    set_erase-Becomes k = rw (erase-on_segment k) (
        Store.writes (set_store boost fallback) d (bindings boost fallback impl) h owner owner-lt
          nodes valid k none (local_erase boost fallback k) (is_some (held k))
          (erase-IsSorted boost fallback k)
          (λ s ok e.
            erase-has boost fallback k s
            ∙ sym (is_some-member (has k (boost.elements s)))
            ∙ ap is_some e)
          (λ s j ok. view-erase boost fallback k s j ok))

    -- On valid servers, `GetAllData` succeeds from every caller, changes nothing, and returns the
    -- keys of all servers, each as often as it is there, in some order.
    pub set_get_all_data-perm :
        (out : List K) × (get_all_data boost fallback d h nodes ≡ some (nodes, out))
        × Perm out (collect d boost.elements nodes)
    unfolding get_all_data get_all_data_in_server bindings get_all_data_in_server_func
    set_get_all_data-perm =
        let op = local_get_all_data_in_server boost fallback in
        let f = get_all_data_in_server_func boost fallback in
        let (out, run, perm) =
          Store.gather-perm (set_store boost fallback) d (bindings boost fallback impl) h owner
            owner-lt nodes valid op (get_all_data_in_server boost fallback d h)
            (λ i. remote d h (codes "_GetAllData") i nothing as_keys) (all_same boost fallback)
            (own-on_segment d valid.serving op (codes "_GetAllData") nothing some_keys as_keys f
              refl (λ s. refl) (λ b. refl))
            (remote-on_segment d valid.serving op (codes "_GetAllData") nothing some_keys as_keys f
              refl (λ s. refl) (λ b. refl)) in
        (
          out,
          run,
          subst (λ g. Perm out (collect d g nodes)) (fun_ext (all-elements boost fallback)) perm,
        )

    -- `Contains` succeeds, changes nothing, and returns what the scans of all servers found.
    pub set_contains-perm :
        (s e : K)
        → (out : List K) × (contains boost fallback d h s e nodes ≡ some (nodes, out))
          × Perm out (collect d (λ m. (local_contains_in_server boost fallback s e m).1) nodes)
    unfolding contains contains_in_server bindings contains_in_server_func
    set_contains-perm s e =
        let op = local_contains_in_server boost fallback s e in
        Store.gather-perm (set_store boost fallback) d (bindings boost fallback impl) h owner
          owner-lt nodes valid op (contains_in_server boost fallback d h s e)
          (λ i. remote d h (codes "_Contains") i (with_range s e) as_keys)
          (contains_same boost fallback s e)
          (own-on_segment d valid.serving op (codes "_Contains") (with_range s e) some_keys as_keys
            (contains_in_server_func boost fallback) refl (λ s. refl) (λ b. refl))
          (remote-on_segment d valid.serving op (codes "_Contains") (with_range s e) some_keys
            as_keys (contains_in_server_func boost fallback) refl (λ s. refl) (λ b. refl))

  -- At most 2 ^ 16 servers that ran the constructor, each with a table that has no function under
  -- a name of the container, are valid and hold nothing.
  pub set_construct-IsValid :
      length nodes ≡ h.num_servers
      → h.my_server < h.num_servers
      → h.num_servers ≤ 2 ^ 16
      → ((i : ℕ) (node : Node d)
          → get_elem? nodes i ≡ some node
          → (t : d.Table) × Store.IsFree d (bindings boost fallback impl) h.func_prefix t
            × (node ≡ construct boost fallback d impl h.func_prefix t))
      → IsValid × ((k : K) → held k ≡ none)
  unfolding construct lookup
  set_construct-IsValid width home fits starts =
      Store.Starts-IsValid d (bindings boost fallback impl) h boost.empty nodes width home fits
        (bindings-Distinct boost fallback impl) starts (set_store boost fallback) owner
        (rw boost.elements-empty tt) (λ k. rw boost.elements-empty)
