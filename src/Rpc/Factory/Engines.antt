-- ===== src/Rpc/Factory/Engines.antt =====
-- The engine of Thallium, of which a process has one: `Singleton<tl::engine>` in `RPC::run`.
use basket.Prelude.{◌>>=◌, ℕ, ◌≡◌, refl, Bool, true, false, List, none, some, get_elem?, length}
use basket.CharStruct.Defs.{CharStruct, text}
use basket.Config.Defs.{read_servers}
use basket.Rpc.Cluster.{RpcImplementation, rpclib, thallium_tcp, thallium_roce}
use basket.Rpc.Address.{engine_init_str}
use basket.Rpc.Singleton.{get_instance-set}
use basket.Rpc.Factory.Defs.{
  Settings, Rpc, Program, new_engine, find, emplace_all, start_engine, start, construct, destroy,
  get_rpc,
}
use basket.Rpc.Factory.Objects.{get_elem?-last}
use basket.Rpc.Factory.Ports.{get_rpc-made, asked}

module _ (memory : CharStruct) (lines : List (List ℕ)) where
  start-engine :
      (server : Bool) (impl : RpcImplementation) (s : Program) (e : ℕ) (init : CharStruct)
      → server ≡ true
      → impl ≡ thallium_tcp
      → s.engine.the_instance ≡ some e
      → engine_init_str memory thallium_tcp s.conf.transport s.conf.server_list s.conf.mpi_rank
          s.conf.rpc_port s.conf.my_server
        ≡ some init
      → start memory server impl s ≡ some (s, (none, some e))
  unfolding start start_engine
  start-engine true thallium_tcp s e init is_server is_tcp set made =
      rw made (rw (get_instance-set new_engine (text init, true) s.engine e set) refl)
  start-engine false impl s e init is_server is_tcp set made = cc
  start-engine true rpclib s e init is_server is_tcp set made = cc
  start-engine true thallium_roce s e init is_server is_tcp set made = cc

  -- With Thallium over TCP, on a server that has an engine: `GetRPC` for a port that has no object yet
  -- makes one with that port, and gives it the engine that is there, which its destructor finalizes. No
  -- engine is started at the new port. It is asked that the server list and the address fit into their arrays.
  pub get_rpc-same_engine :
      (p e : ℕ) (s : Program) (list : List CharStruct) (init : CharStruct)
      → s.conf.rpc_implementation ≡ thallium_tcp
      → s.conf.is_server ≡ true
      → (read_servers lines >>= emplace_all memory) ≡ some list
      → engine_init_str memory thallium_tcp s.conf.transport list s.conf.mpi_rank p s.conf.my_server
        ≡ some init
      → find p s.rpcs ≡ none
      → s.engine.the_instance ≡ some e
      → (after : Program) × (get_rpc memory lines p s ≡ some (after, length s.objects))
        × (after.engine ≡ s.engine)
        × (rpc : Rpc) × (get_elem? after.objects (length s.objects) ≡ some rpc)
        × (rpc.server_port ≡ p)
        × (rpc.thallium_engine ≡ some e)
        × (destroy after.conf rpc ≡ some e)
  unfolding construct destroy
  get_rpc-same_engine p e s list init impl server loaded made absent set =
      let conf : Settings = record s.conf {
        rpc_port = p;
        server_list = list;
        num_servers = length list;
      } in
      let s1 : Program = record s { conf = conf } in
      let rpc : Rpc = record {
        server_port = p;
        server_list = list;
        rpclib_server = none;
        thallium_engine = some e;
      } in
      let run : construct memory lines (asked memory lines p s) ≡ some (s1, rpc) =
        rw
          (
            loaded,
            start-engine s.conf.is_server s.conf.rpc_implementation s1 e init server impl set made,
          )
          refl in
      (
        _,
        get_rpc-made memory lines p s (s1, rpc) absent run,
        refl,
        rpc,
        get_elem?-last s.objects rpc,
        refl,
        refl,
        rw (server, impl) refl,
      )
