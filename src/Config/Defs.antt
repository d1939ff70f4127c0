-- ===== src/Config/Defs.antt =====
-- `LoadServers`, `ConfigureDefaultClient` and `ConfigureDefaultServer`. A text is a list of bytes.
use basket.Prelude.{
  ℕ, zero, suc, ◌+◌, ◌-◌, ◌*◌, ◌%◌, ◌^◌, Bool, true, false, if◌then◌else◌, ◌==◌, leb, ltb, ◌&&◌,
  ◌||◌, List, [], ◌∷◌, ◌++◌, Option, none, some, length, ◌>>=◌, codes,
}
use basket.Rpc.Cluster.{RpcImplementation}
use basket.CharStruct.Defs.{c_str}

-- `file_line.find(':')`, with `substr` before and after it.
unfoldable pub split_loc : List ℕ → Option (List ℕ × List ℕ)
split_loc [] = none
split_loc (c ∷ cs) =
    let rest = split_loc cs in
    if c == 58 then some ([], cs) else (rest >>= λ r. some (c ∷ r.0, r.1))

-- `atoi`: spaces, a sign, and digits up to another character.
unfoldable pub skip_spaces : List ℕ → List ℕ
skip_spaces [] = []
skip_spaces (c ∷ cs) =
    let rest = skip_spaces cs in if c == 32 || (leb 9 c && leb c 13) then rest else c ∷ cs

unfoldable pub digits : ℕ → List ℕ → ℕ
digits n [] = n
digits n (c ∷ cs) =
    let rest = digits (n * 10 + (c - 48)) cs in if leb 48 c && leb c 57 then rest else n

-- For a number that an `int` does not hold the standard leaves open what `atoi` does: `none`.
unfoldable pub as_int : ℕ → Option ℕ
as_int n = if ltb n (2 ^ 31) then some n else none

-- The rounds of `for (int i = 0; i < count; ++i)`, so 0 for a negative `count`.
unfoldable pub count : List ℕ → Option ℕ
unfolding digits as_int
count [] = some 0
count (c ∷ cs) =
    if c == 45
    then (if leb (digits 0 cs) (2 ^ 31) then some 0 else none)
    else (if c == 43 then as_int (digits 0 cs) else as_int (digits 0 (c ∷ cs)))

abbrev pub replicate {ℓ} : {A : Type ℓ} → ℕ → A → List A
replicate zero a = []
replicate (suc n) a = a ∷ replicate n a

unfoldable pub servers_of_line : List ℕ → Option (List (List ℕ))
unfolding split_loc skip_spaces count c_str
servers_of_line line = elim (split_loc line) [
  | none ↦ some (c_str line ∷ [])
  | some r ↦ count (skip_spaces r.1) >>= λ n. some (replicate n (c_str r.0))
]

-- The names in the lines of the file that is open, each as often as it is emplaced.
unfoldable pub read_servers : List (List ℕ) → Option (List (List ℕ))
unfolding servers_of_line
read_servers [] = some []
read_servers (line ∷ lines) =
    servers_of_line line >>= λ names. read_servers lines >>= λ rest. some (names ++ rest)

-- A text goes into the array of a `CharStruct`, with a NUL. A longer one is written behind the array.
unfoldable pub in_array : List ℕ → Option (List ℕ)
in_array text = if ltb (length text) 256 then some text else none

-- `SERVER_LIST.emplace_back(server_node_name)`
unfoldable pub emplace_names : List (List ℕ) → Option (List (List ℕ))
unfolding in_array
emplace_names [] = some []
emplace_names (name ∷ names) =
    in_array name >>= λ n. emplace_names names >>= λ rest. some (n ∷ rest)

-- `LoadServers`, on the lines of the file.
unfoldable pub load_servers : List (List ℕ) → Option (List (List ℕ))
unfolding read_servers emplace_names
load_servers lines = read_servers lines >>= emplace_names

-- `ConfigurationManager`, with the texts of its `CharStruct` members.
pub record ConfigurationManager : Type 0 where
  pub rpc_port : ℕ
  pub rpc_threads : ℕ
  pub rpc_implementation : RpcImplementation
  pub mpi_rank : ℕ
  pub comm_size : ℕ
  pub tcp_conf : List ℕ
  pub verbs_conf : List ℕ
  pub verbs_domain : List ℕ
  pub memory_allocated : ℕ
  pub is_server : Bool
  pub my_server : ℕ
  pub num_servers : ℕ
  pub server_on_node : Bool
  pub server_list_path : List ℕ
  pub server_list : List (List ℕ)
  pub backed_file_dir : List ℕ
  pub dyn_config : Bool

-- The constructor, for the RPC implementation of the build, and the size and rank that MPI gives.
unfoldable pub construct : RpcImplementation → ℕ → ℕ → ConfigurationManager
construct impl comm_size mpi_rank = record {
  rpc_port = 8080;
  rpc_threads = 1;
  rpc_implementation = impl;
  mpi_rank = mpi_rank;
  comm_size = comm_size;
  tcp_conf = codes "ofi+tcp";
  verbs_conf = codes "verbs";
  verbs_domain = codes "mlx5_0";
  memory_allocated = 1024 * 1024 * 128;
  is_server = false;
  my_server = 0;
  num_servers = 1;
  server_on_node = true;
  server_list_path = codes "./server_list";
  server_list = [];
  backed_file_dir = codes "/dev/shm";
  dyn_config = false;
}

-- `if(server_list_path!="") SERVER_LIST_PATH = server_list_path;`
unfoldable pub set_path : List ℕ → ConfigurationManager → Option ConfigurationManager
unfolding c_str in_array
set_path [] c = some c
set_path (b ∷ bs) c =
    in_array (c_str (b ∷ bs)) >>= λ path. some (record c { server_list_path = path })

-- `LoadServers`, where `files` gives the lines of a file that can be opened; otherwise the process
-- exits.
unfoldable pub load :
    (List ℕ → Option (List (List ℕ))) → ConfigurationManager → Option ConfigurationManager
unfolding load_servers
load files c = do
  lines ← files c.server_list_path
  list ← load_servers lines
  some (record c { server_list = list; num_servers = length list })

-- `MPI_RANK % NUM_SERVERS` divides by zero for an empty list.
unfoldable pub configure :
    Bool
    → (List ℕ → Option (List (List ℕ)))
    → List ℕ
    → ConfigurationManager
    → Option ConfigurationManager
unfolding set_path load
configure server files server_list_path c = do
  at_path ← set_path server_list_path c
  loaded ← load files at_path
  let configured : ConfigurationManager = record loaded {
    is_server = server;
    my_server = loaded.mpi_rank % loaded.num_servers % 2 ^ 16;
    server_on_node = server;
  }
  if loaded.num_servers == 0 then none else some configured

abbrev pub configure_default_client :
    (List ℕ → Option (List (List ℕ))) → List ℕ → ConfigurationManager → Option ConfigurationManager
configure_default_client = configure false

abbrev pub configure_default_server :
    (List ℕ → Option (List (List ℕ))) → List ℕ → ConfigurationManager → Option ConfigurationManager
configure_default_server = configure true
