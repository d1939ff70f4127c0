-- ===== src/Segment/Defs.antt =====
-- The parts that the constructors of the containers share, and their destructor. Each constructor is put
-- together from them in the module `Objects` of its container.
use basket.Prelude.{ℕ, if◌then◌else◌, List, ◌++◌, Option, none, some, ◌>>=◌, codes}
use basket.CharStruct.Defs.{CharStruct, text, of_chars, of_string, add_string, add_assign}
use basket.Config.Defs.{ConfigurationManager}
use basket.Rpc.Address.{join, to_string}
use basket.Rpc.Names.{Name, Dispatcher, bind_all}
use basket.Rpc.Cluster.{Handle}
use basket.Rpc.Ports.{plus}
use basket.Segment.Files.{Shared, container, mutex, ManagedFiles}

-- `memory` is what new objects find in their arrays.
module _ (memory : CharStruct) where
  -- `BACKED_FILE_DIR + PATH_SEPARATOR + name_`, for a `CharStruct` and for a `std::string`.
  unfoldable pub in_dir : List ℕ → CharStruct → Option CharStruct
  unfolding join of_string
  in_dir dir name_ =
      join memory (join memory (of_string memory dir) (of_chars memory (codes "/"))) (some name_)

  unfoldable pub in_dir_string : List ℕ → List ℕ → Option CharStruct
  unfolding join of_string
  in_dir_string dir name_ =
      join memory (of_string memory dir) (of_chars memory (codes "/")) >>= λ p.
      add_string memory p name_

  -- `... +"_"+std::to_string(my_server)`
  unfoldable pub with_number : Option CharStruct → ℕ → Option CharStruct
  unfolding join of_string to_string
  with_number a my_server =
      join memory (join memory a (of_chars memory (codes "_")))
        (of_string memory (to_string (plus my_server)))

  -- `this->name += "_" + std::to_string(my_server);`
  unfoldable pub append_number : Option CharStruct → ℕ → Option CharStruct
  unfolding of_string to_string
  append_number name my_server = do
    n ← name
    suffix ← of_string memory (codes "_" ++ to_string (plus my_server))
    add_assign n suffix

module _ {C : Type 0} (files : ManagedFiles (Shared C)) where
  open files use {T, Segment}

  -- A pointer to an object in a segment.
  abbrev pub Pointer : Type 0
  Pointer = Segment × List ℕ

  -- The members `segment`, `mymap` (or its like) and `mutex`.
  pub record Members : Type 0 where
    pub segment : Option Segment
    pub data_pointer : Option Pointer
    pub mutex_pointer : Option Pointer

  -- An object of a container class.
  pub record Object : Type 0 where
    pub handle : Handle
    pub comm_size : ℕ
    pub my_rank : ℕ
    pub memory_allocated : ℕ
    pub name : List ℕ
    pub backed_file : CharStruct
    pub members : Members

  -- How the members are set, for the path of the file and the name.
  abbrev pub Branch : Type 0
  Branch = List ℕ → List ℕ → T → Option (T × Members)

  -- The branch of a server: a new file, with a new container and a new mutex.
  unfoldable pub create : ℕ → (List ℕ → List ℕ) → C → Branch
  create size object_name initial path name t = do
    (t1, s) ← files.create_only path size (files.remove path t)
    t2 ← files.construct s (object_name name) (container initial) t1
    t3 ← files.construct s (codes "mtx") mutex t2
    some (
      t3,
      record {
        segment = some s;
        data_pointer = some (s, object_name name);
        mutex_pointer = some (s, codes "mtx");
      },
    )

  -- `segment.find<...>(name).first`
  unfoldable pub find_pointer : Segment → List ℕ → T → Option Pointer
  find_pointer s n t = files.find s n t >>= λ x. some (s, n)

  -- The branch of a client with a server on its node: the file is opened.
  unfoldable pub attach : (List ℕ → List ℕ) → Branch
  unfolding find_pointer
  attach object_name path name t = do
    s ← files.open_only path t
    some (
      t,
      record {
        segment = some s;
        data_pointer = find_pointer s (object_name name) t;
        mutex_pointer = find_pointer s (codes "mtx") t;
      },
    )

  -- A client without a server on its node maps nothing.
  unfoldable pub none_mapped : Branch
  none_mapped path name t =
      some (t, record { segment = none; data_pointer = none; mutex_pointer = none })

  -- The members that are copied from the configuration, with the others.
  abbrev pub object : ConfigurationManager → ℕ → List ℕ → List ℕ → CharStruct → Members → Object
  object c memory_allocated func_prefix name backed_file members = record {
    handle = record {
      is_server = c.is_server;
      my_server = c.my_server;
      num_servers = c.num_servers;
      server_on_node = c.server_on_node;
      func_prefix = func_prefix;
    };
    comm_size = c.comm_size;
    my_rank = c.mpi_rank;
    memory_allocated = memory_allocated;
    name = name;
    backed_file = backed_file;
    members = members;
  }

  -- The two branches of a constructor.
  unfoldable pub set_up :
      ConfigurationManager
      → ℕ
      → List ℕ
      → List ℕ
      → CharStruct
      → Branch
      → Branch
      → T
      → Option (T × Object)
  unfolding none_mapped text
  set_up c memory_allocated func_prefix name backed_file server client t = do
    let branch = if c.is_server then server else if c.server_on_node then client else none_mapped
    (t', members) ← branch (text backed_file) name t
    some (t', object c memory_allocated func_prefix name backed_file members)

  -- The constructor of a container but for `rpc->bind`, from the texts that its initializers make.
  unfoldable pub construct :
      ConfigurationManager
      → Option CharStruct
      → Option CharStruct
      → Option CharStruct
      → Branch
      → Branch
      → T
      → Option (T × Object)
  unfolding set_up text
  construct c func_prefix name backed_file server client t = do
    prefix ← func_prefix
    n ← name
    file ← backed_file
    set_up c c.memory_allocated (text prefix) (text n) file server client t

  -- A server binds its functions.
  unfoldable pub bind_functions :
      {H : Type 0}
      → (d : Dispatcher H) → List (Name × H)
      → d.Table
      → Option (T × Object)
      → Option (T × (Object × d.Table))
  unfolding bind_all
  bind_functions d bindings functions r = do
    (t, o) ← r
    let bound = bind_all d o.handle.func_prefix bindings functions
    some (t, (o, if o.handle.is_server then bound else functions))

  -- The destructor.
  unfoldable pub destroy : Object → T → T
  unfolding text
  destroy o t = if o.handle.is_server then files.remove (text o.backed_file) t else t
