-- ===== src/Set/Defs.antt =====
-- The operations of `basket::set`.
use basket.Prelude.{
  Option, ℕ, Bool, true, false, if◌then◌else◌, ◌==◌, ltb, ◌+◌, List, [], ◌∷◌, ◌++◌, none, some,
  get_elem?, codes,
}
use basket.Container.Order.{Order, ◌<?◌}
use basket.Container.Entries.{assign}
use basket.Container.Range.{copy, scan}
use basket.Container.Boost.{Tree}
use basket.Rpc.Names.{Name, Dispatcher, bind_all}
use basket.Rpc.Cluster.{
  Handle, Handler, Node, Action, remote, route, own, gather, RpcImplementation, rpclib,
  thallium_tcp, thallium_roce,
}
use basket.Rpc.Serve.{answer}
use basket.Rpc.Hashing.{key_int}
use basket.Rpc.Wire.{
  Args, Reply, nothing, with_key, with_range, with_count, a_bool, a_size, a_key, some_keys,
  first_keys, as_bool, as_size, as_key, as_keys,
}

-- The key of an element is the element.
abbrev pub itself {ℓ} : {K : Type ℓ} → K → K
itself k = k

-- `boost::interprocess::set<KeyType, Compare, ShmemAllocator>`
abbrev pub MySet : (K : Type 0) ⦃o : Order K⦄ → Type 1
MySet K = Tree (itself {K = K}) (assign itself)

-- `while (iterator != end() && i < n) { keys.push_back(*iterator); i++; iterator++; }` over the keys
-- from the iterator on, with `i` and `keys` at the end.
unfoldable pub first_n {ℓ} : {K : Type ℓ} → List K → ℕ → ℕ → List K → ℕ × List K
first_n [] i n keys = (i, keys)
first_n (x ∷ xs) i n keys =
    let rest = first_n xs (i + 1) n (keys ++ x ∷ []) in if ltb i n then rest else (i, keys)

-- `fallback` is `KeyType()`. The remote branch of `SeekFirstN` takes what msgpack reads from the response
-- as a flag and a key, with the conversion of the key, as `as_vector`.
module _ {K : Type 0} ⦃o : Order K⦄ (boost : MySet K) (fallback : K) where
  open boost use {T, elements}

  unfoldable pub local_put : K → T → T × Bool
  local_put k m = (boost.insert k m, true)

  unfoldable pub local_get : K → T → T × Bool
  local_get k m = elim (get_elem? (elements m) (boost.find k m)) [
    | none ↦ (m, false)
    | some e ↦ (m, true)
  ]

  unfoldable pub local_erase : K → T → T × Bool
  local_erase k m = let (m', s) = boost.erase_key k m in (m', ltb 0 s)

  -- The branch for a single key.
  unfoldable pub only : K → List K → List K
  only start [] = []
  only start (e ∷ es) = if e <? start then [] else e ∷ []

  unfoldable pub local_contains_in_server : K → K → T → T × List K
  unfolding only scan
  local_contains_in_server start end m =
      let size = boost.size m in
      if size == 0
      then (m, [])
      else if size == 1
      then (m, only start (elements m))
      else (m, scan itself start end (elements m) (boost.lower_bound_of start m))

  unfoldable pub local_get_all_data_in_server : T → T × List K
  unfolding copy
  local_get_all_data_in_server m = (m, copy (elements m) [])

  -- `begin()` is the place 0.
  unfoldable pub local_seek_first : T → T × (Bool × K)
  local_seek_first m =
      if ltb 0 (boost.size m)
      then elim (get_elem? (elements m) 0) [
        | none ↦ (m, (false, fallback))
        | some k ↦ (m, (true, k))
      ]
      else (m, (false, fallback))

  unfoldable pub local_seek_first_n : ℕ → T → T × (Bool × List K)
  unfolding first_n
  local_seek_first_n n m = let (i, keys) = first_n (elements m) 0 n [] in (m, (ltb 0 i, keys))

  unfoldable pub local_pop_first : T → T × (Bool × K)
  local_pop_first m =
      if ltb 0 (boost.size m)
      then elim (get_elem? (elements m) 0) [
        | none ↦ (m, (false, fallback))
        | some k ↦ (boost.erase 0 m, (true, k))
      ]
      else (m, (false, fallback))

  unfoldable pub local_size : T → T × ℕ
  local_size m = (m, boost.size m)

  abbrev pub Function : Type 0
  Function = Handler T (Args K K) (Reply K K)

  unfoldable pub put_func : Function
  put_func (with_key k) m = answer a_bool (local_put k m)
  put_func _ m = none

  unfoldable pub get_func : Function
  get_func (with_key k) m = answer a_bool (local_get k m)
  get_func _ m = none

  unfoldable pub erase_func : Function
  erase_func (with_key k) m = answer a_bool (local_erase k m)
  erase_func _ m = none

  unfoldable pub get_all_data_in_server_func : Function
  get_all_data_in_server_func nothing m = answer some_keys (local_get_all_data_in_server m)
  get_all_data_in_server_func _ m = none

  unfoldable pub contains_in_server_func : Function
  contains_in_server_func (with_range s e) m = answer some_keys (local_contains_in_server s e m)
  contains_in_server_func _ m = none

  unfoldable pub seek_first_func : Function
  seek_first_func nothing m = answer a_key (local_seek_first m)
  seek_first_func _ m = none

  unfoldable pub pop_first_func : Function
  pop_first_func nothing m = answer a_key (local_pop_first m)
  pop_first_func _ m = none

  unfoldable pub size_func : Function
  size_func nothing m = answer a_size (local_size m)
  size_func _ m = none

  unfoldable pub local_seek_first_n_func : Function
  local_seek_first_n_func (with_count n) m = answer first_keys (local_seek_first_n n m)
  local_seek_first_n_func _ m = none

  -- The functions that the constructor binds, for each RPC implementation. The Thallium branches
  -- leave out `_SeekFirstN`.
  unfoldable pub bindings : RpcImplementation → List (Name × Function)
  bindings impl =
      (codes "_Put", put_func)
      ∷ (codes "_Get", get_func)
      ∷ (codes "_Erase", erase_func)
      ∷ (codes "_GetAllData", get_all_data_in_server_func)
      ∷ (codes "_Contains", contains_in_server_func)
      ∷ (codes "_SeekFirst", seek_first_func)
      ∷ (codes "_PopFirst", pop_first_func)
      ∷ (codes "_Size", size_func)
      ∷ elim impl [
        | rpclib ↦ (codes "_SeekFirstN", local_seek_first_n_func) ∷ []
        | thallium_tcp ↦ []
        | thallium_roce ↦ []
      ]

  module _ (d : Dispatcher (Handler T (Args K K) (Reply K K))) where
    -- The constructor on a server: an empty set in a new segment, and the functions bound.
    unfoldable pub construct : RpcImplementation → Name → d.Table → Node d
    unfolding bindings bind_all
    construct impl func_prefix t = record {
      segment = boost.empty;
      functions = bind_all d func_prefix (bindings impl) t;
    }

    module _ (h : Handle) where
      unfoldable pub seek_first : ℕ → Action d (Bool × K)
      unfolding route remote
      seek_first i = route d h i local_seek_first (remote d h (codes "_SeekFirst") i nothing as_key)

      unfoldable pub pop_first : ℕ → Action d (Bool × K)
      unfolding route remote
      pop_first i = route d h i local_pop_first (remote d h (codes "_PopFirst") i nothing as_key)

      unfoldable pub size : ℕ → Action d ℕ
      unfolding route remote
      size i = route d h i local_size (remote d h (codes "_Size") i nothing as_size)

      -- The remote branch reads the response as `std::pair<bool, KeyType>`, and converts the key to
      -- `std::vector<KeyType>`. It compiles only for keys with such a conversion.
      unfoldable pub seek_first_n :
          (Reply K K → Option (Bool × List K)) → ℕ → ℕ → Action d (Bool × List K)
      unfolding route remote
      seek_first_n as_vector i n =
          route d h i (local_seek_first_n n)
            (remote d h (codes "_SeekFirstN") i (with_count n) as_vector)

      unfoldable pub contains_in_server : K → K → Action d (List K)
      unfolding own remote
      contains_in_server s e =
          own d h (local_contains_in_server s e)
            (remote d h (codes "_Contains") h.my_server (with_range s e) as_keys)

      unfoldable pub contains : K → K → Action d (List K)
      unfolding contains_in_server gather remote
      contains s e =
          gather d h (contains_in_server s e)
            (λ i. remote d h (codes "_Contains") i (with_range s e) as_keys)

      unfoldable pub get_all_data_in_server : Action d (List K)
      unfolding own remote
      get_all_data_in_server =
          own d h local_get_all_data_in_server
            (remote d h (codes "_GetAllData") h.my_server nothing as_keys)

      unfoldable pub get_all_data : Action d (List K)
      unfolding get_all_data_in_server gather remote
      get_all_data =
          gather d h get_all_data_in_server
            (λ i. remote d h (codes "_GetAllData") i nothing as_keys)

    module _ (key_hash : K → ℕ) (h : Handle) where
      unfoldable pub put : K → Action d Bool
      unfolding route remote key_int
      put k =
          let i = key_int (key_hash k) h.num_servers in
          route d h i (local_put k) (remote d h (codes "_Put") i (with_key k) as_bool)

      unfoldable pub get : K → Action d Bool
      unfolding route remote key_int
      get k =
          let i = key_int (key_hash k) h.num_servers in
          route d h i (local_get k) (remote d h (codes "_Get") i (with_key k) as_bool)

      unfoldable pub erase : K → Action d Bool
      unfolding route remote key_int
      erase k =
          let i = key_int (key_hash k) h.num_servers in
          route d h i (local_erase k) (remote d h (codes "_Erase") i (with_key k) as_bool)
