-- ===== src/Rpc/Cluster.antt =====
-- The servers, and the two ways of a container's operation to the data of one of them: the shared
-- memory segment of a server on the same node, and a remote call
-- (`RPC::call` of include/basket/communication/rpc_lib.cpp, `RPC_CALL_WRAPPER` of
-- include/basket/common/macros.h).
use basket.Prelude.{
  none, ℕ, zero, suc, Bool, Option, some, List, ◌++◌, ◌&&◌, ◌==◌, set, ◌%◌, ◌^◌, get_elem?,
  if◌then◌else◌, ◌>>=◌,
}
use basket.Rpc.Names.{Name, Dispatcher}

-- The members of a container object that decide where its operations go. They are copies of the
-- configuration's IS_SERVER, MY_SERVER, NUM_SERVERS and SERVER_ON_NODE.
pub record Handle : Type 0 where
  pub is_server : Bool
  pub my_server : ℕ
  pub num_servers : ℕ
  pub server_on_node : Bool
  pub func_prefix : Name

-- A bound function decodes its arguments, which fails by an exception, and runs on the segment of
-- the server.
abbrev pub Handler : Type 0 → Type 0 → Type 0 → Type 0
Handler S Args Reply = Args → S → Option (S × Reply)

module _ {S Args Reply : Type 0} (d : Dispatcher (Handler S Args Reply)) where
  -- A server: the container in its shared memory segment, and its table of functions.
  pub record Node : Type 0 where
    pub segment : S
    pub functions : d.Table

  -- A step on the servers that can end in an exception.
  abbrev pub Action : Type 0 → Type 0
  Action B = List Node → Option (List Node × B)

  -- An operation on the segment of server `i`, held under its mutex from start to end.
  unfoldable pub on_segment : {B : Type 0} → ℕ → (S → S × B) → Action B
  on_segment i op nodes = do
    node ← get_elem? nodes i
    let (s, b) = op node.segment
    some (set nodes i (record node { segment = s }), b)

  -- `RPC::call`: its parameter `server_index` is a `uint16_t`, `server_list.at` throws out of range, and
  -- so does the call of an unbound name.
  unfoldable pub call : ℕ → Name → Args → Action Reply
  call i name args nodes = do
    let server_index = i % 2 ^ 16
    node ← get_elem? nodes server_index
    f ← d.function name node.functions
    (s, r) ← f args node.segment
    some (set nodes server_index (record node { segment = s }), r)

  -- `rpc->call(server, func_prefix + name, args).template as<ret>()`
  unfoldable pub remote : {B : Type 0} → Handle → Name → ℕ → Args → (Reply → Option B) → Action B
  unfolding call
  remote h name i args decode nodes = do
    (nodes', r) ← call i (h.func_prefix ++ name) args nodes
    b ← decode r
    some (nodes', b)

  -- `if (key_int == my_server && server_on_node) return Local...; else return RPC_CALL_WRAPPER...`
  unfoldable pub route : {B : Type 0} → Handle → ℕ → (S → S × B) → Action B → Action B
  unfolding on_segment
  route h key_int local away =
      if key_int == h.my_server && h.server_on_node then on_segment key_int local else away

  -- `if (server_on_node) return Local...; else return RPC_CALL_WRAPPER...` at `my_server`
  unfoldable pub own : {B : Type 0} → Handle → (S → S × B) → Action B → Action B
  unfolding on_segment
  own h local away = if h.server_on_node then on_segment h.my_server local else away

  -- An operation through a pointer of the caller, which leads to the segment of the server that is
  -- given, or is null.
  unfoldable pub at_pointer : {B : Type 0} → Option ℕ → (S → S × B) → Action B
  unfolding on_segment
  at_pointer none local nodes = none
  at_pointer (some i) local nodes = on_segment i local nodes

  -- The loop `for (int i = 0; i < num_servers; ++i) if (i != my_server) ...`, with the rounds left.
  unfoldable pub gather_loop :
      {E : Type 0} → ℕ → ℕ → ℕ → (ℕ → Action (List E)) → List E → Action (List E)
  gather_loop zero i my_server ask final_values nodes = some (nodes, final_values)
  gather_loop (suc rounds) i my_server ask final_values nodes =
      let next = gather_loop rounds (suc i) my_server ask in
      if i == my_server
      then next final_values nodes
      else ask i nodes >>= λ r. next (final_values ++ r.1) r.0

  -- The values of the own server, then those of the others in order.
  unfoldable pub gather :
      {E : Type 0} → Handle → Action (List E) → (ℕ → Action (List E)) → Action (List E)
  unfolding gather_loop
  gather h current_server ask nodes = do
    (nodes', current) ← current_server nodes
    gather_loop h.num_servers 0 h.my_server ask current nodes'

-- `RPCImplementation` (include/basket/common/enumerations.h)
pub data RpcImplementation : Type 0 where
  rpclib thallium_tcp thallium_roce : RpcImplementation
