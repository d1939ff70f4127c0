-- ===== src/Tests/FactoryRuns.antt =====
-- `RPCFactory`, `Singleton` and the addresses, in a process with two servers in its list.
use basket.Prelude.{
  ℕ, ◌≡◌, ◌↔◌, refl, arith, List, [], ◌∷◌, ◌++◌, true, none, some, codes, get_elem?,
}
use basket.Config.Defs.{
  replicate, read_servers, servers_of_line, split_loc, skip_spaces, count, digits,
}
use basket.CharStruct.Defs.{CharStruct, c_str, text, of_string, of_chars, snprintf, strcpy, add}
use basket.Rpc.Cluster.{rpclib, thallium_tcp}
use basket.Rpc.Address.{
  Transport, engine_init_str, lookup_str, lookup_str-engine_init_str, join, to_string, decimal_loop,
}
use basket.Rpc.Factory.Defs.{Settings, Rpc, Program, find, emplace_all, destroy, get_rpc}
use basket.Rpc.Factory.Objects.{IsValid}
use basket.Rpc.Factory.Ports.{HasPort, get_rpc-HasPort}
use basket.Rpc.Factory.Engines.{get_rpc-same_engine}

abbrev memory : CharStruct
memory = record { value = replicate 256 120 }

abbrev stored_text : List ℕ → ℕ → CharStruct
stored_text s rest = record { value = s ++ replicate rest 0 }

abbrev transport : Transport
transport = record {
  tcp_conf = stored_text (codes "ofi+tcp") 249;
  verbs_conf = stored_text (codes "verbs") 251;
  verbs_domain = stored_text (codes "mlx5_0") 250;
}

abbrev lines : List (List ℕ)
lines = codes "n1" ∷ codes "n2" ∷ []

abbrev n1 : CharStruct
n1 = stored_text (codes "n1") 254

abbrev n2 : CharStruct
n2 = stored_text (codes "n2") 254

-- A server with number 1, whose MPI rank is 0.
abbrev settings : Settings
settings = record {
  rpc_port = 8080;
  rpc_implementation = rpclib;
  mpi_rank = 0;
  is_server = true;
  my_server = 1;
  num_servers = 2;
  server_list = [];
  transport = transport;
}

abbrev process : Program
process = record {
  conf = settings;
  objects = [];
  rpcs = [];
  engine = record { the_instance = none; objects = [] };
}

get_rpc-HasPort_example :
    (after : Program) × (made : ℕ) × (get_rpc memory lines 9000 process ≡ some (after, made))
    × HasPort after made 9000
    × IsValid after
    × (after.conf.rpc_port ≡ 8080)
    × (get_rpc memory lines 9000 after ≡ some (after, made))
unfolding read_servers servers_of_line split_loc skip_spaces count digits c_str find
get_rpc-HasPort_example =
    get_rpc-HasPort memory lines 9000 lines process refl refl (omega arith, (omega arith, tt)) refl
      (λ p made found. cc)

abbrev with_engine : Program
with_engine = record process {
  conf = record settings { rpc_implementation = thallium_tcp };
  objects =
      record {
        server_port = 8080;
        server_list = [];
        rpclib_server = none;
        thallium_engine = some 0;
      }
      ∷ [];
  rpcs = (8080, 0) ∷ [];
  engine = record {
    the_instance = some 0;
    objects = record { address = codes "ofi+tcp://n1:8081"; server_mode = true } ∷ [];
  };
}

abbrev names : List CharStruct
names =
    record { value = codes "n1" ++ 0 ∷ replicate 253 120 }
    ∷ record { value = codes "n2" ++ 0 ∷ replicate 253 120 }
    ∷ []

get_rpc-same_engine_example :
    (after : Program) × (get_rpc memory lines 9000 with_engine ≡ some (after, 1))
    × (after.engine ≡ with_engine.engine)
    × (rpc : Rpc) × (get_elem? after.objects 1 ≡ some rpc)
    × (rpc.server_port ≡ 9000)
    × (rpc.thallium_engine ≡ some 0)
    × (destroy after.conf rpc ≡ some 0)
unfolding read_servers servers_of_line split_loc skip_spaces count digits c_str find emplace_all
    of_string of_chars snprintf strcpy engine_init_str join to_string decimal_loop add text
get_rpc-same_engine_example =
    get_rpc-same_engine memory lines 9000 0 with_engine names
      (record { value = codes "ofi+tcp://n1:9001" ++ 0 ∷ replicate 238 120 }) refl refl refl refl
      refl refl

lookup_str-engine_init_str_example :
    (looked_up started : CharStruct) × (lookup_str memory
        (λ name. some name)
        thallium_tcp
        transport
        (n1 ∷ n2 ∷ [])
        1
        8080
      ≡ some looked_up)
    × (engine_init_str memory thallium_tcp transport (n1 ∷ n2 ∷ []) 0 8080 1 ≡ some started)
    × ((text looked_up ≡ text started) ↔ (text n2 ≡ text n1))
unfolding text c_str to_string decimal_loop
lookup_str-engine_init_str_example =
    lookup_str-engine_init_str memory refl (λ name. some name) transport (n1 ∷ n2 ∷ []) 0 1 8080 n2
      n1 (text n2) (refl, omega arith) refl refl (refl, omega arith) refl refl (omega arith)
      (omega arith) (omega arith)
