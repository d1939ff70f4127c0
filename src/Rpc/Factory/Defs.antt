-- ===== src/Rpc/Factory/Defs.antt =====
-- `RPC::RPC` with `RPC::run`, and `RPC::~RPC` (src/basket/communication/rpc_lib.cpp), and `RPCFactory::GetRPC`.
use basket.Prelude.{
  ℕ, ◌+◌, ◌%◌, ◌^◌, Bool, true, false, if◌then◌else◌, ◌==◌, List, [], ◌∷◌, ◌++◌, Option, none, some,
  length, ◌>>=◌,
}
use basket.CharStruct.Defs.{CharStruct, text, of_string}
use basket.Config.Defs.{read_servers}
use basket.Rpc.Cluster.{RpcImplementation, rpclib, thallium_tcp, thallium_roce}
use basket.Rpc.Address.{Transport, engine_init_str}
use basket.Rpc.Singleton.{Static, get_instance}

-- The members of the configuration that `RPC` reads and writes.
pub record Settings : Type 0 where
  pub rpc_port : ℕ
  pub rpc_implementation : RpcImplementation
  pub mpi_rank : ℕ
  pub is_server : Bool
  pub my_server : ℕ
  pub num_servers : ℕ
  pub server_list : List CharStruct
  pub transport : Transport

-- `tl::engine`: its address or protocol, and whether it was started in server mode.
pub record Engine : Type 0 where
  pub address : List ℕ
  pub server_mode : Bool

-- `new tl::engine(address, mode)`
abbrev pub new_engine : List ℕ × Bool → Engine
new_engine a = record { address = a.0; server_mode = a.1 }

-- `RPC`: the port that its `rpc::server` listens on, and the address of its engine, where they are
-- set.
pub record Rpc : Type 0 where
  pub server_port : ℕ
  pub server_list : List CharStruct
  pub rpclib_server : Option ℕ
  pub thallium_engine : Option ℕ

-- A process: `BASKET_CONF`, the RPC objects by address, the map of the factory, and
-- `Singleton<tl::engine>`.
pub record Program : Type 0 where
  pub conf : Settings
  pub objects : List Rpc
  pub rpcs : List (ℕ × ℕ)
  pub engine : Static Engine

-- `RPC::~RPC`: the engine that it finalizes, if any.
unfoldable pub destroy : Settings → Rpc → Option ℕ
destroy conf rpc =
    if conf.is_server
    then elim conf.rpc_implementation [
      | rpclib ↦ none
      | thallium_tcp ↦ rpc.thallium_engine
      | thallium_roce ↦ rpc.thallium_engine
    ]
    else none

-- `rpcs.find`
unfoldable pub find : ℕ → List (ℕ × ℕ) → Option ℕ
find p [] = none
find p ((q, r) ∷ rs) = let rest = find p rs in if q == p then some r else rest

-- `memory` is what new objects find in their arrays, `lines` those of the server list.
module _ (memory : CharStruct) where
  -- `SERVER_LIST.emplace_back(server_node_name)`
  unfoldable pub emplace_all : List (List ℕ) → Option (List CharStruct)
  unfolding of_string
  emplace_all [] = some []
  emplace_all (name ∷ names) = do c ← of_string memory name; cs ← emplace_all names; some (c ∷ cs)

  -- The engine of the process, if there is one yet, and else a new one.
  unfoldable pub start_engine : List ℕ → Bool → Program → Program × ℕ
  unfolding get_instance
  start_engine address server_mode s =
      let (engine, e) = get_instance new_engine (address, server_mode) s.engine in
      (record s { engine = engine }, e)

  -- The servers and engines that the constructor and `run` start.
  unfoldable pub start :
      Bool → RpcImplementation → Program → Option (Program × (Option ℕ × Option ℕ))
  unfolding start_engine engine_init_str text
  start true rpclib s = some (s, (some ((s.conf.rpc_port + s.conf.my_server) % 2 ^ 16), none))
  start true thallium_tcp s = do
    init ←
        engine_init_str memory thallium_tcp s.conf.transport s.conf.server_list s.conf.mpi_rank
          s.conf.rpc_port s.conf.my_server
    let (s', e) = start_engine (text init) true s
    some (s', (none, some e))
  start true thallium_roce s = do
    init ←
        engine_init_str memory thallium_roce s.conf.transport s.conf.server_list s.conf.mpi_rank
          s.conf.rpc_port s.conf.my_server
    let (s', e) = start_engine (text init) true s
    some (s', (none, some e))
  start false rpclib s = some (s, (none, none))
  start false thallium_tcp s =
      let (s', e) = start_engine (text s.conf.transport.tcp_conf) false s in
      some (s', (none, some e))
  start false thallium_roce s =
      let (s', e) = start_engine (text s.conf.transport.verbs_conf) false s in
      some (s', (none, some e))

  -- `RPC::RPC`
  unfoldable pub construct : List (List ℕ) → Program → Option (Program × Rpc)
  unfolding read_servers emplace_all start
  construct lines s = do
    server_list ← read_servers lines >>= emplace_all
    let conf : Settings = record s.conf {
      server_list = server_list;
      num_servers = length server_list;
    }
    (s', (rpclib_server, thallium_engine)) ←
        start conf.is_server conf.rpc_implementation (record s { conf = conf })
    some (
      s',
      record {
        server_port = s.conf.rpc_port;
        server_list = server_list;
        rpclib_server = rpclib_server;
        thallium_engine = thallium_engine;
      },
    )

  -- `RPCFactory::GetRPC`
  unfoldable pub get_rpc : List (List ℕ) → ℕ → Program → Option (Program × ℕ)
  unfolding find construct
  get_rpc lines server_port s = elim (find server_port s.rpcs) [
    | some rpc ↦ some (s, rpc)
    | none ↦
        let temp = s.conf.rpc_port in
        construct lines (record s { conf = record s.conf { rpc_port = server_port } }) >>= λ r.
        let made = length r.0.objects in
        some (
          record r.0 {
            conf = record r.0.conf { rpc_port = temp };
            objects = r.0.objects ++ r.1 ∷ [];
            rpcs = (server_port, made) ∷ r.0.rpcs;
          },
          made,
        )
  ]
