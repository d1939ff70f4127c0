-- ===== src/Map/Defs.antt =====
-- The operations of `basket::map`.
use basket.Prelude.{
  ℕ, Bool, true, false, if◌then◌else◌, ◌==◌, ltb, List, [], ◌∷◌, none, some, get_elem?, codes,
}
use basket.Container.Order.{Order, ◌<?◌}
use basket.Container.Entries.{assign}
use basket.Container.Range.{copy, scan}
use basket.Container.Boost.{Tree}
use basket.Rpc.Names.{Name, Dispatcher, bind_all}
use basket.Rpc.Cluster.{
  Handle, Handler, Node, Action, remote, route, own, gather, RpcImplementation,
}
use basket.Rpc.Serve.{answer}
use basket.Rpc.Hashing.{key_int}
use basket.Rpc.Wire.{
  Args, Reply, nothing, with_key, with_key_data, with_range, a_bool, a_value, some_pairs, as_bool,
  as_value, as_pairs,
}

-- `lower_bound->first`
abbrev pub first {ℓ} : {K V : Type ℓ} → K × V → K
first e = e.0

-- `boost::interprocess::map<KeyType, MappedType, Compare, ShmemAllocator>`
abbrev pub MyMap : (K V : Type 0) ⦃o : Order K⦄ → Type 1
MyMap K V = Tree (first {K = K} {V = V}) (assign first)

-- `mapped` is `MappedType()`.
module _ {K V : Type 0} ⦃o : Order K⦄ (boost : MyMap K V) (mapped : V) where
  open boost use {T, elements}

  unfoldable pub local_put : K → V → T → T × Bool
  local_put k v m = (boost.insert (k, v) m, true)

  unfoldable pub local_get : K → T → T × (Bool × V)
  local_get k m = elim (get_elem? (elements m) (boost.find k m)) [
    | none ↦ (m, (false, mapped))
    | some e ↦ (m, (true, e.1))
  ]

  unfoldable pub local_erase : K → T → T × (Bool × V)
  local_erase k m = let (m', s) = boost.erase_key k m in (m', (ltb 0 s, mapped))

  unfoldable pub local_get_all_data_in_server : T → T × List (K × V)
  unfolding copy
  local_get_all_data_in_server m = (m, copy (elements m) [])

  -- The branch for a single element.
  unfoldable pub only : K → List (K × V) → List (K × V)
  only start [] = []
  only start (e ∷ es) = if start <? first e then e ∷ [] else []

  unfoldable pub local_contains_in_server : K → K → T → T × List (K × V)
  unfolding only scan
  local_contains_in_server start end m =
      let size = boost.size m in
      if size == 0
      then (m, [])
      else if size == 1
      then (m, only start (elements m))
      else (m, scan first start end (elements m) (boost.lower_bound_of start m))

  abbrev pub Function : Type 0
  Function = Handler T (Args K V) (Reply K V)

  unfoldable pub put_func : Function
  put_func (with_key_data k v) m = answer a_bool (local_put k v m)
  put_func _ m = none

  unfoldable pub get_func : Function
  get_func (with_key k) m = answer a_value (local_get k m)
  get_func _ m = none

  unfoldable pub erase_func : Function
  erase_func (with_key k) m = answer a_value (local_erase k m)
  erase_func _ m = none

  unfoldable pub get_all_data_in_server_func : Function
  get_all_data_in_server_func nothing m = answer some_pairs (local_get_all_data_in_server m)
  get_all_data_in_server_func _ m = none

  unfoldable pub contains_in_server_func : Function
  contains_in_server_func (with_range s e) m = answer some_pairs (local_contains_in_server s e m)
  contains_in_server_func _ m = none

  -- The functions that the constructor binds, for each RPC implementation; a Thallium function
  -- responds with what the local operation returns.
  unfoldable pub bindings : RpcImplementation → List (Name × Function)
  bindings impl =
      (codes "_Put", put_func)
      ∷ (codes "_Get", get_func)
      ∷ (codes "_Erase", erase_func)
      ∷ (codes "_GetAllData", get_all_data_in_server_func)
      ∷ (codes "_Contains", contains_in_server_func)
      ∷ []

  module _ (d : Dispatcher (Handler T (Args K V) (Reply K V))) where
    -- The constructor on a server: an empty map in a new segment, and the functions bound.
    unfoldable pub construct : RpcImplementation → Name → d.Table → Node d
    unfolding bindings bind_all
    construct impl func_prefix t = record {
      segment = boost.empty;
      functions = bind_all d func_prefix (bindings impl) t;
    }

    module _ (key_hash : K → ℕ) (h : Handle) where
      unfoldable pub put : K → V → Action d Bool
      unfolding route remote key_int
      put k v =
          let i = key_int (key_hash k) h.num_servers in
          route d h i (local_put k v) (remote d h (codes "_Put") i (with_key_data k v) as_bool)

      unfoldable pub get : K → Action d (Bool × V)
      unfolding route remote key_int
      get k =
          let i = key_int (key_hash k) h.num_servers in
          route d h i (local_get k) (remote d h (codes "_Get") i (with_key k) as_value)

      unfoldable pub erase : K → Action d (Bool × V)
      unfolding route remote key_int
      erase k =
          let i = key_int (key_hash k) h.num_servers in
          route d h i (local_erase k) (remote d h (codes "_Erase") i (with_key k) as_value)

      unfoldable pub contains_in_server : K → K → Action d (List (K × V))
      unfolding own remote
      contains_in_server s e =
          own d h (local_contains_in_server s e)
            (remote d h (codes "_Contains") h.my_server (with_range s e) as_pairs)

      unfoldable pub contains : K → K → Action d (List (K × V))
      unfolding contains_in_server gather remote
      contains s e =
          gather d h (contains_in_server s e)
            (λ i. remote d h (codes "_Contains") i (with_range s e) as_pairs)

      unfoldable pub get_all_data_in_server : Action d (List (K × V))
      unfolding own remote
      get_all_data_in_server =
          own d h local_get_all_data_in_server
            (remote d h (codes "_GetAllData") h.my_server nothing as_pairs)

      unfoldable pub get_all_data : Action d (List (K × V))
      unfolding get_all_data_in_server gather remote
      get_all_data =
          gather d h get_all_data_in_server
            (λ i. remote d h (codes "_GetAllData") i nothing as_pairs)
