-- ===== src/UnorderedMap/Callbacks/Remote.antt =====
-- `PutWithCallback` and the other operations with callbacks, across the servers.
use basket.Prelude.{
  ℕ, ◌%◌, ◌^◌, ◌≡◌, refl, ◌∙◌, false, ◌==◌, ◌&&◌, ==_refl, arith, List, ◌++◌, Option, none, some,
  get_elem?, set, get_elem?-set, lt-get_elem?, str_eq,
}
use basket.Container.Hashed.{Key, HashMap}
use basket.Rpc.Names.{Name, Dispatcher}
use basket.Rpc.Cluster.{
  Handle, Handler, Node, call, RpcImplementation, rpclib, thallium_tcp, thallium_roce,
}
use basket.Rpc.Ports.{is_rpclib}
use basket.UnorderedMap.Defs.{put_key_int}
use basket.UnorderedMap.Callbacks.Defs.{
  Process, Beyond, CallbackArgs, CallbackReply, Server, enter, leave, far, bind, put_with_callback,
  get_with_callback, erase_with_callback, callback_key_data, callback_key, as_put_result,
  as_value_result,
}

put_key_int_small : (x n : ℕ) → put_key_int x n % 2 ^ 16 ≡ put_key_int x n
unfolding put_key_int
put_key_int_small x n = omega arith

module _ {K V : Type 0} {key : Key K} (boost : HashMap V key) (mapped : V) {W A R : Type 0}
    (beyond : Beyond W A R)
    (d : Dispatcher (Handler (Server boost.T W A R) (CallbackArgs K V A) (CallbackReply K V R)))
    (h : Handle) where
  far-unbound :
      {B : Type 0} (impl : RpcImplementation) (c_name : Name) (i : ℕ)
      (args : Option A → CallbackArgs K V A) (cb_args : A) (decode : CallbackReply K V R → Option B)
      (nodes : List (Node d)) (node : Node d) (client : Process W A R)
      → is_rpclib impl ≡ false
      → i % 2 ^ 16 ≡ i
      → get_elem? nodes i ≡ some node
      → d.function (h.func_prefix ++ c_name) node.functions ≡ none
      → far boost mapped beyond d impl h c_name i args cb_args decode (nodes, client) ≡ none
  unfolding far call
  far-unbound rpclib c_name i args cb_args decode nodes node client other small at free = cc
  far-unbound thallium_tcp c_name i args cb_args decode nodes node client other small at free =
      rw (small, at, free) refl
  far-unbound thallium_roce c_name i args cb_args decode nodes node client other small at free =
      rw (small, at, free) refl

module _ {K V : Type 0} {key : Key K} (boost : HashMap V key) (mapped : V) {W A R : Type 0}
    (beyond : Beyond W A R)
    (d : Dispatcher (Handler (Server boost.T W A R) (CallbackArgs K V A) (CallbackReply K V R)))
    (impl : RpcImplementation) (h : Handle) (key_hash : K → ℕ) where
  -- `Bind` on a server enters the name that the callers give, and with Thallium the operations send
  -- it with the prefix. So where the prefixed name is another one, and free, a remote call ends in an
  -- exception.
  pub bind-unreachable :
      (k : K) (v : V) (c_name cb_name : Name) (cb_func : A → W → W × R)
      (caller_func : Handler (Server boost.T W A R) (CallbackArgs K V A) (CallbackReply K V R))
      (address : ℕ) (cb_args : A) (nodes : List (Node d)) (node : Node d) (client : Process W A R)
      → is_rpclib impl ≡ false
      → (put_key_int (key_hash k) h.num_servers == h.my_server && h.server_on_node) ≡ false
      → get_elem? nodes (put_key_int (key_hash k) h.num_servers) ≡ some node
      → str_eq c_name (h.func_prefix ++ c_name) ≡ false
      → d.function (h.func_prefix ++ c_name) node.functions ≡ none
      → (after : List (Node d)) × (bind boost mapped beyond d impl h
            (put_key_int (key_hash k) h.num_servers)
            cb_name
            cb_func
            c_name
            caller_func
            address
            nodes
          ≡ some after)
        × (put_with_callback boost mapped beyond d impl h key_hash k v c_name cb_name cb_args
              (after, client)
            ≡ none)
        × (get_with_callback boost mapped beyond d impl h key_hash k c_name cb_name cb_args
              (after, client)
            ≡ none)
        × (erase_with_callback boost mapped beyond d impl h key_hash k c_name cb_name cb_args
              (after, client)
            ≡ none)
  unfolding bind put_with_callback get_with_callback erase_with_callback
  bind-unreachable k v c_name cb_name f caller address cb_args nodes node client other away at
        differ free =
      let i = put_key_int (key_hash k) h.num_servers in
      let small = put_key_int_small (key_hash k) h.num_servers in
      let process = leave address (enter cb_name f address node.segment.1) in
      let new : Node d = record {
        segment = (node.segment.0, process);
        functions = d.bind c_name caller node.functions;
      } in
      let after = set nodes i new in
      let here : get_elem? after i ≡ some new =
        get_elem?-set nodes i i new (lt-get_elem? nodes i node at) ∙ rw (==_refl i) refl in
      let still =
        d.function-bind_ne c_name (h.func_prefix ++ c_name) caller node.functions differ ∙ free in
      (
        after,
        rw at refl,
        rw away (
            far-unbound boost mapped beyond d h impl c_name i (callback_key_data k v cb_name)
              cb_args as_put_result after new client other small here still),
        rw away (
            far-unbound boost mapped beyond d h impl c_name i (callback_key k cb_name) cb_args
              as_value_result after new client other small here still),
        rw away (
            far-unbound boost mapped beyond d h impl c_name i (callback_key k cb_name) cb_args
              as_value_result after new client other small here still),
      )
