-- ===== src/UnorderedMap/Callbacks/Lifetime.antt =====
-- What `Bind` leaves behind: the address of a parameter that is gone.
use basket.Prelude.{
  ℕ, ◌≡◌, refl, ◌∙◌, true, ==_refl, Bool-cases, inl, inr, List, [], ◌∷◌, none, some, get_elem?, set,
  get_elem?-set, lt-get_elem?, str_eq, str_eq_refl,
}
use basket.Container.Hashed.{Key, HashMap}
use basket.Rpc.Names.{Name, Dispatcher, lookup_name}
use basket.Rpc.Cluster.{Handle, Handler, Node, RpcImplementation}
use basket.UnorderedMap.Defs.{
  put_key_int, local_put, local_get, local_erase, local_get_all_data_in_server,
}
use basket.UnorderedMap.Callbacks.Defs.{
  Process, Beyond, insert_or_assign, CallbackArgs, CallbackReply, Server, enter, leave,
  run_callback, then_call, local_put_with_callback, local_get_with_callback,
  local_erase_with_callback, local_get_all_data_in_server_with_callback, near, bind,
  put_with_callback, get_with_callback, erase_with_callback, get_all_data_in_server_with_callback,
}

lookup_name-insert_or_assign :
    (n : Name) (a : ℕ) (bs : List (Name × ℕ)) → lookup_name n (insert_or_assign n a bs) ≡ some a
unfolding insert_or_assign
lookup_name-insert_or_assign n a [] = rw (str_eq_refl n) refl
lookup_name-insert_or_assign n a ((m, b) ∷ bs) = elim (Bool-cases (str_eq m n)) [
  | inl same ↦ rw (same, same) refl
  | inr other ↦ rw (other, other) (lookup_name-insert_or_assign n a bs)
]

module _ {W A R : Type 0} (beyond : Beyond W A R) where
  run_callback-none :
      (n : Name) (address : ℕ) (p : Process W A R) (cb_args : A)
      → lookup_name n p.binding_map ≡ some address
      → p.memory address ≡ none
      → run_callback beyond n cb_args p ≡ none
  unfolding run_callback
  run_callback-none n address p cb_args entered gone = rw (entered, run_callback) (rw gone refl)

  -- The address that `Bind` enters leads nowhere when it has returned.
  pub run_callback-leave :
      (n : Name) (f : A → W → W × R) (address : ℕ) (p : Process W A R) (cb_args : A)
      → run_callback beyond n cb_args (leave address (enter n f address p)) ≡ none
  unfolding leave enter
  run_callback-leave n f address p cb_args =
      run_callback-none n address _ cb_args (lookup_name-insert_or_assign n address p.binding_map)
        (rw (==_refl address) refl)

  then_call-gone :
      {T B : Type 0} (op : T → T × B) (n : Name) (cb_args : A) (s : T × Process W A R)
      → run_callback beyond n cb_args s.1 ≡ none
      → then_call beyond op n cb_args s ≡ none
  unfolding then_call
  then_call-gone op n cb_args (m, p) gone = rw gone refl

module _ {K V : Type 0} {key : Key K} (boost : HashMap V key) (mapped : V) {W A R : Type 0}
    (beyond : Beyond W A R)
    (d : Dispatcher (Handler (Server boost.T W A R) (CallbackArgs K V A) (CallbackReply K V R)))
    (impl : RpcImplementation) (h : Handle) where
  near-gone :
      {B : Type 0} (i : ℕ) (op : boost.T → boost.T × B) (n : Name) (cb_args : A)
      (nodes : List (Node d)) (node : Node d) (client : Process W A R)
      → get_elem? nodes i ≡ some node
      → h.is_server ≡ true
      → run_callback beyond n cb_args node.segment.1 ≡ none
      → near boost mapped beyond d impl h i (then_call beyond op n cb_args) (nodes, client) ≡ none
  unfolding near
  near-gone i op n cb_args nodes node client at is_server gone =
      rw (at, is_server, then_call-gone beyond op n cb_args node.segment gone) refl

  module _ (key_hash : K → ℕ) where
    -- After a `Bind` on a server, which the server itself calls, each operation with that callback
    -- on one of the server's own keys, and the one on all its data, calls a function that is no
    -- longer there.
    pub bind-gone :
        (callback_name : Name) (callback_func : A → W → W × R) (caller_func_name : Name)
        (caller_func : Handler (Server boost.T W A R) (CallbackArgs K V A) (CallbackReply K V R))
        (address : ℕ) (nodes : List (Node d)) (node : Node d) (client : Process W A R) (k : K)
        (v : V) (c_name : Name) (cb_args : A)
        → get_elem? nodes h.my_server ≡ some node
        → h.is_server ≡ true
        → h.server_on_node ≡ true
        → put_key_int (key_hash k) h.num_servers ≡ h.my_server
        → (after : List (Node d)) × (bind boost mapped beyond d impl h h.my_server callback_name
              callback_func caller_func_name caller_func address nodes
            ≡ some after)
          × (put_with_callback boost mapped beyond d impl h key_hash k v c_name callback_name
                cb_args
                (after, client)
              ≡ none)
          × (get_with_callback boost mapped beyond d impl h key_hash k c_name callback_name cb_args
                (after, client)
              ≡ none)
          × (erase_with_callback boost mapped beyond d impl h key_hash k c_name callback_name
                cb_args
                (after, client)
              ≡ none)
          × (get_all_data_in_server_with_callback boost mapped beyond d impl h c_name callback_name
                cb_args
                (after, client)
              ≡ none)
    unfolding bind put_with_callback get_with_callback erase_with_callback
        get_all_data_in_server_with_callback local_put_with_callback local_get_with_callback
        local_erase_with_callback local_get_all_data_in_server_with_callback
    bind-gone n f caller_func_name caller_func address nodes node client k v c_name cb_args at
          is_server near_by own =
        let i = h.my_server in
        let process = leave address (enter n f address node.segment.1) in
        let new : Node d = record {
          segment = (node.segment.0, process);
          functions = d.bind caller_func_name caller_func node.functions;
        } in
        let after = set nodes i new in
        let here : get_elem? after i ≡ some new =
          get_elem?-set nodes i i new (lt-get_elem? nodes i node at) ∙ rw (==_refl i) refl in
        let gone = run_callback-leave beyond n f address node.segment.1 cb_args in
        (
          after,
          rw at refl,
          rw (own, ==_refl i, near_by)
              (near-gone i (local_put boost mapped k v) n cb_args after new client here is_server
                gone),
          rw (own, ==_refl i, near_by)
              (near-gone i (local_get boost mapped k) n cb_args after new client here is_server
                gone),
          rw (own, ==_refl i, near_by)
              (near-gone i (local_erase boost mapped k) n cb_args after new client here is_server
                gone),
          rw near_by (
              near-gone i (local_get_all_data_in_server boost mapped) n cb_args after new client
                here is_server gone),
        )
