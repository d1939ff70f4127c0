-- ===== src/UnorderedMap/Callbacks/Defs.antt =====
-- `Bind`, `Call` and the operations with callbacks of `basket::unordered_map`, for a `ReturnType` other
-- than `void`: with `void`, `auto ret_2=Call<ReturnType>(...)` does not compile.
use basket.Prelude.{
  ℕ, Bool, if◌then◌else◌, ◌==◌, ◌&&◌, List, [], ◌∷◌, ◌++◌, Option, none, some, get_elem?, set,
  ◌>>=◌, str_eq,
}
use basket.Container.Hashed.{Key, HashMap}
use basket.Rpc.Names.{Name, Dispatcher, lookup_name}
use basket.Rpc.Cluster.{
  Handle, Handler, Node, call, RpcImplementation, rpclib, thallium_tcp, thallium_roce,
}
use basket.UnorderedMap.Defs.{
  put_key_int, local_put, local_get, local_erase, local_get_all_data_in_server,
}

-- The process that runs an operation: `binding_map`, which leads from a name to the address of a
-- `std::function`, the functions that are alive, by address, and what the callbacks act on.
pub record Process (W A R : Type 0) : Type 0 where
  pub binding_map : List (Name × ℕ)
  pub memory : ℕ → Option (A → W → W × R)
  pub world : W

abbrev pub Beyond : Type 0 → Type 0 → Type 0 → Type 0
Beyond W A R = Process W A R → Option (Process W A R × R)

-- `binding_map.insert_or_assign`
unfoldable pub insert_or_assign : Name → ℕ → List (Name × ℕ) → List (Name × ℕ)
insert_or_assign n a [] = (n, a) ∷ []
insert_or_assign n a ((m, b) ∷ bs) =
    let rest = insert_or_assign n a bs in if str_eq m n then (m, a) ∷ bs else (m, b) ∷ rest

-- What a call with a callback sends, the arguments of the callback if the wrapper passes them on, and
-- what comes back.
pub data CallbackArgs (K V A : Type 0) : Type 0 where
  callback_only : Name → Option A → CallbackArgs K V A
  callback_key : K → Name → Option A → CallbackArgs K V A
  callback_key_data : K → V → Name → Option A → CallbackArgs K V A

pub data CallbackReply (K V R : Type 0) : Type 0 where
  put_result : Bool × R → CallbackReply K V R
  value_result : (Bool × V) × R → CallbackReply K V R
  pairs_result : List (K × V) × R → CallbackReply K V R

module _ {K V R : Type 0} where
  abbrev pub as_put_result : CallbackReply K V R → Option (Bool × R)
  as_put_result (put_result r) = some r
  as_put_result _ = none

  abbrev pub as_value_result : CallbackReply K V R → Option ((Bool × V) × R)
  as_value_result (value_result r) = some r
  as_value_result _ = none

  abbrev pub as_pairs_result : CallbackReply K V R → Option (List (K × V) × R)
  as_pairs_result (pairs_result r) = some r
  as_pairs_result _ = none

-- The segment that an operation works on, and the process that runs it.
abbrev pub Server : Type 0 → Type 0 → Type 0 → Type 0 → Type 0
Server T W A R = T × Process W A R

module _ {W A R : Type 0} where
  -- The address `callback_func` of the parameter goes into the map while the parameter is alive.
  unfoldable pub enter : Name → (A → W → W × R) → ℕ → Process W A R → Process W A R
  unfolding insert_or_assign
  enter callback_name callback_func address p = record p {
    binding_map = insert_or_assign callback_name address p.binding_map;
    memory = λ a. if a == address then some callback_func else p.memory a;
  }

  -- The parameter is destroyed when `Bind` returns.
  unfoldable pub leave : ℕ → Process W A R → Process W A R
  leave address p = record p { memory = λ a. if a == address then none else p.memory a }

  -- `Call`: `none` is a call of a function that is no longer there. The body has no `return`, so what
  -- follows its end is undefined: `beyond` stands for what the compiled program does there, which is any
  -- result in any state of the process, or none.
  unfoldable pub run_callback : Beyond W A R → Name → A → Process W A R → Option (Process W A R × R)
  run_callback beyond cb_name cb_args p = elim (lookup_name cb_name p.binding_map) [
    | none ↦ beyond p
    | some address ↦
        p.memory address >>= λ cb_func. beyond (record p { world = (cb_func cb_args p.world).0 })
  ]

  -- A local operation on the segment, then the callback.
  unfoldable pub then_call :
      {T B : Type 0}
      → Beyond W A R
      → (T → T × B)
      → Name
      → A
      → Server T W A R
      → Option (Server T W A R × (B × R))
  unfolding run_callback
  then_call beyond op cb_name cb_args (m, p) = do
    let (m', ret_1) = op m
    (p', ret_2) ← run_callback beyond cb_name cb_args p
    some ((m', p'), (ret_1, ret_2))

module _ {K V : Type 0} {key : Key K} (boost : HashMap V key) (mapped : V) {W A R : Type 0}
    (beyond : Beyond W A R) where
  open boost use {T}

  unfoldable pub local_put_with_callback :
      K → V → Name → A → Server T W A R → Option (Server T W A R × (Bool × R))
  unfolding local_put then_call
  local_put_with_callback k v = then_call beyond (local_put boost mapped k v)

  unfoldable pub local_get_with_callback :
      K → Name → A → Server T W A R → Option (Server T W A R × ((Bool × V) × R))
  unfolding local_get then_call
  local_get_with_callback k = then_call beyond (local_get boost mapped k)

  unfoldable pub local_erase_with_callback :
      K → Name → A → Server T W A R → Option (Server T W A R × ((Bool × V) × R))
  unfolding local_erase then_call
  local_erase_with_callback k = then_call beyond (local_erase boost mapped k)

  -- Its result is declared with `bool` for the key, so it compiles for `KeyType` `bool` only.
  unfoldable pub local_get_all_data_in_server_with_callback :
      Name → A → Server T W A R → Option (Server T W A R × (List (K × V) × R))
  unfolding local_get_all_data_in_server then_call
  local_get_all_data_in_server_with_callback =
      then_call beyond (local_get_all_data_in_server boost mapped)

  module _ (d : Dispatcher (Handler (Server T W A R) (CallbackArgs K V A) (CallbackReply K V R)))
      (impl : RpcImplementation) (h : Handle) where
    -- The servers, and the process of a caller that is none of them.
    abbrev pub State : Type 0
    State = List (Node d) × Process W A R

    -- An operation that can end in an exception, or beyond what the language defines.
    abbrev pub CallbackAction : Type 0 → Type 0
    CallbackAction B = State → Option (State × B)

    -- The segment of server `i`, with the process of the caller.
    unfoldable pub near :
        {B : Type 0} → ℕ → (Server T W A R → Option (Server T W A R × B)) → CallbackAction B
    near i op (nodes, client) = do
      node ← get_elem? nodes i
      let process = if h.is_server then node.segment.1 else client
      ((m, process'), b) ← op (node.segment.0, process)
      let after : Server T W A R = (m, if h.is_server then process' else node.segment.1)
      some (
        (set nodes i (record node { segment = after }), if h.is_server then client else process'),
        b,
      )

    -- `RPC_CALL_WRAPPER_CB`: with rpclib the name is sent as it is, with the arguments of the callback;
    -- with Thallium it gets the prefix, and the arguments are left out.
    unfoldable pub far :
        {B : Type 0}
        → Name
        → ℕ
        → (Option A → CallbackArgs K V A)
        → A
        → (CallbackReply K V R → Option B)
        → CallbackAction B
    unfolding call
    far c_name i args cb_args decode (nodes, client) = do
      let sent : Option (List (Node d) × CallbackReply K V R) = elim impl [
        | rpclib ↦ call d i c_name (args (some cb_args)) nodes
        | thallium_tcp ↦ call d i (h.func_prefix ++ c_name) (args none) nodes
        | thallium_roce ↦ call d i (h.func_prefix ++ c_name) (args none) nodes
      ]
      (nodes', r) ← sent
      b ← decode r
      some ((nodes', client), b)

    -- `Bind` on server `i`: the function of the callers is bound under its name alone.
    unfoldable pub bind :
        ℕ
        → Name
        → (A → W → W × R)
        → Name
        → Handler (Server T W A R) (CallbackArgs K V A) (CallbackReply K V R)
        → ℕ
        → List (Node d)
        → Option (List (Node d))
    unfolding enter leave
    bind i callback_name callback_func caller_func_name caller_func address nodes = do
      node ← get_elem? nodes i
      let process = leave address (enter callback_name callback_func address node.segment.1)
      some (
          set nodes i (record {
            segment = (node.segment.0, process);
            functions = d.bind caller_func_name caller_func node.functions;
          }))

    module _ (key_hash : K → ℕ) where
      unfoldable pub put_with_callback : K → V → Name → Name → A → CallbackAction (Bool × R)
      unfolding near far put_key_int local_put_with_callback
      put_with_callback k v c_name cb_name cb_args =
          let i = put_key_int (key_hash k) h.num_servers in
          if i == h.my_server && h.server_on_node
          then near i (local_put_with_callback k v cb_name cb_args)
          else far c_name i (callback_key_data k v cb_name) cb_args as_put_result

      unfoldable pub get_with_callback : K → Name → Name → A → CallbackAction ((Bool × V) × R)
      unfolding near far put_key_int local_get_with_callback
      get_with_callback k c_name cb_name cb_args =
          let i = put_key_int (key_hash k) h.num_servers in
          if i == h.my_server && h.server_on_node
          then near i (local_get_with_callback k cb_name cb_args)
          else far c_name i (callback_key k cb_name) cb_args as_value_result

      unfoldable pub erase_with_callback : K → Name → Name → A → CallbackAction ((Bool × V) × R)
      unfolding near far put_key_int local_erase_with_callback
      erase_with_callback k c_name cb_name cb_args =
          let i = put_key_int (key_hash k) h.num_servers in
          if i == h.my_server && h.server_on_node
          then near i (local_erase_with_callback k cb_name cb_args)
          else far c_name i (callback_key k cb_name) cb_args as_value_result

    unfoldable pub get_all_data_in_server_with_callback :
        Name → Name → A → CallbackAction (List (K × V) × R)
    unfolding near far local_get_all_data_in_server_with_callback
    get_all_data_in_server_with_callback c_name cb_name cb_args =
        if h.server_on_node
        then near h.my_server (local_get_all_data_in_server_with_callback cb_name cb_args)
        else far c_name h.my_server (callback_only cb_name) cb_args as_pairs_result
