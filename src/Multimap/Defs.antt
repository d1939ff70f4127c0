-- ===== src/Multimap/Defs.antt =====
-- The operations of `basket::multimap`.
use basket.Prelude.{
  ℕ, zero, suc, length, drop, not, ◌||◌, Bool, true, false, if◌then◌else◌, ◌==◌, ltb, List, [], ◌∷◌,
  none, some, get_elem?, codes,
}
use basket.Map.Defs.{first}
use basket.Container.Order.{Order}
use basket.Container.Entries.{insert}
use basket.Container.Range.{copy, copy_until}
use basket.Container.Boost.{Tree}
use basket.Rpc.Names.{Name, Dispatcher, bind_all}
use basket.Rpc.Cluster.{
  Handle, Handler, Node, Action, remote, route, own, gather, RpcImplementation,
}
use basket.Rpc.Serve.{answer}
use basket.Rpc.Hashing.{key_int}
use basket.Rpc.Wire.{
  Args, Reply, nothing, with_key, with_key_data, a_bool, a_value, some_pairs, as_bool, as_value,
  as_pairs,
}

-- `boost::interprocess::multimap<KeyType, MappedType, Compare, ShmemAllocator>`
abbrev pub MyMultimap : (K V : Type 0) ⦃o : Order K⦄ → Type 1
MyMultimap K V = Tree (first {K = K} {V = V}) (insert first)

-- `begin()` of a container that has one pair.
abbrev pub first_pair {ℓ} : {A : Type ℓ} → List A → List A
first_pair [] = []
first_pair (e ∷ es) = e ∷ []

-- `mapped` is `MappedType()`, and `within a b` is `a.Contains(b)`, a method of the user's key type.
module _ {K V : Type 0} ⦃o : Order K⦄ (boost : MyMultimap K V) (mapped : V)
    (within : K → K → Bool) where
  open boost use {T, elements}

  unfoldable pub local_put : K → V → T → T × Bool
  local_put k v m =
      let it = boost.find k m in
      let rest : T = elim (get_elem? (elements m) it) [ none ↦ m | some e ↦ boost.erase it m ] in
      (boost.insert (k, v) rest, true)

  unfoldable pub local_get : K → T → T × (Bool × V)
  local_get k m = elim (get_elem? (elements m) (boost.find k m)) [
    | none ↦ (m, (false, mapped))
    | some e ↦ (m, (true, e.1))
  ]

  unfoldable pub local_erase : K → T → T × (Bool × V)
  local_erase k m = let (m', s) = boost.erase_key k m in (m', (ltb 0 s, mapped))

  unfoldable pub local_get_all_data_in_server : T → T × List (K × V)
  unfolding copy
  local_get_all_data_in_server m = (m, copy (elements m) [])

  -- `if (it != begin()) { --it; if (!key.Contains(it->first)) it++; }`
  unfoldable pub step_back : K → List (K × V) → ℕ → ℕ
  step_back k xs zero = zero
  step_back k xs (suc i) = elim (get_elem? xs i) [
    | none ↦ suc i
    | some e ↦ if within k (first e) then i else suc i
  ]

  -- One of the two contains the other.
  abbrev pub overlaps : K → K × V → Bool
  overlaps k e = within k (first e) || within (first e) k

  unfoldable pub local_contains_in_server : K → T → T × List (K × V)
  unfolding step_back copy copy_until
  local_contains_in_server k m =
      let xs = elements m in
      let it = boost.lower_bound_of k m in
      let scan =
        if it == length xs
        then []
        else copy_until (λ e. not (overlaps k e)) (drop (step_back k xs it) xs) [] in
      if boost.size m == 0
      then (m, [])
      else if boost.size m == 1
      then (m, first_pair xs)
      else (m, scan)

  abbrev pub Function : Type 0
  Function = Handler T (Args K V) (Reply K V)

  unfoldable pub put_func : Function
  put_func (with_key_data k v) m = answer a_bool (local_put k v m)
  put_func _ m = none

  unfoldable pub get_func : Function
  get_func (with_key k) m = answer a_value (local_get k m)
  get_func _ m = none

  unfoldable pub erase_func : Function
  erase_func (with_key k) m = answer a_value (local_erase k m)
  erase_func _ m = none

  unfoldable pub get_all_data_in_server_func : Function
  get_all_data_in_server_func nothing m = answer some_pairs (local_get_all_data_in_server m)
  get_all_data_in_server_func _ m = none

  unfoldable pub contains_in_server_func : Function
  contains_in_server_func (with_key k) m = answer some_pairs (local_contains_in_server k m)
  contains_in_server_func _ m = none

  -- The functions that the constructor binds, for each RPC implementation; a Thallium function
  -- responds with what the local operation returns.
  unfoldable pub bindings : RpcImplementation → List (Name × Function)
  bindings impl =
      (codes "_Put", put_func)
      ∷ (codes "_Get", get_func)
      ∷ (codes "_Erase", erase_func)
      ∷ (codes "_GetAllData", get_all_data_in_server_func)
      ∷ (codes "_Contains", contains_in_server_func)
      ∷ []

  module _ (d : Dispatcher (Handler T (Args K V) (Reply K V))) where
    -- The constructor on a server: an empty multimap in a new segment, and the functions bound.
    unfoldable pub construct : RpcImplementation → Name → d.Table → Node d
    unfolding bindings bind_all
    construct impl func_prefix t = record {
      segment = boost.empty;
      functions = bind_all d func_prefix (bindings impl) t;
    }

    module _ (key_hash : K → ℕ) (h : Handle) where
      unfoldable pub put : K → V → Action d Bool
      unfolding route remote key_int
      put k v =
          let i = key_int (key_hash k) h.num_servers in
          route d h i (local_put k v) (remote d h (codes "_Put") i (with_key_data k v) as_bool)

      unfoldable pub get : K → Action d (Bool × V)
      unfolding route remote key_int
      get k =
          let i = key_int (key_hash k) h.num_servers in
          route d h i (local_get k) (remote d h (codes "_Get") i (with_key k) as_value)

      unfoldable pub erase : K → Action d (Bool × V)
      unfolding route remote key_int
      erase k =
          let i = key_int (key_hash k) h.num_servers in
          route d h i (local_erase k) (remote d h (codes "_Erase") i (with_key k) as_value)

      unfoldable pub contains_in_server : K → Action d (List (K × V))
      unfolding own remote
      contains_in_server k =
          own d h (local_contains_in_server k)
            (remote d h (codes "_Contains") h.my_server (with_key k) as_pairs)

      unfoldable pub contains : K → Action d (List (K × V))
      unfolding contains_in_server gather remote
      contains k =
          gather d h (contains_in_server k)
            (λ i. remote d h (codes "_Contains") i (with_key k) as_pairs)

      unfoldable pub get_all_data_in_server : Action d (List (K × V))
      unfolding own remote
      get_all_data_in_server =
          own d h local_get_all_data_in_server
            (remote d h (codes "_GetAllData") h.my_server nothing as_pairs)

      unfoldable pub get_all_data : Action d (List (K × V))
      unfolding get_all_data_in_server gather remote
      get_all_data =
          gather d h get_all_data_in_server
            (λ i. remote d h (codes "_GetAllData") i nothing as_pairs)
