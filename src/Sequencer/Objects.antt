-- ===== src/Sequencer/Objects.antt =====
-- The objects of `basket::global_sequence`: the whole constructor, and the destructor. The file has no
-- server number in its name.
use basket.Prelude.{ℕ, List, Option, codes, ◌>>=◌, ◌++◌}
use basket.CharStruct.Defs.{CharStruct}
use basket.Config.Defs.{ConfigurationManager}
use basket.Rpc.Address.{to_string}
use basket.Rpc.Ports.{plus}
use basket.Rpc.Names.{Dispatcher}
use basket.Rpc.Cluster.{Handler, RpcImplementation}
use basket.Rpc.Wire.{Args, Reply}
use basket.Segment.Files.{Shared, ManagedFiles}
use basket.Segment.Defs as Segment
use basket.Segment.Defs.{Object, object, create, attach, set_up, bind_functions, in_dir_string}
use basket.Sequencer.Defs.{bindings}

module _ (files : ManagedFiles (Shared ℕ)) (d : Dispatcher (Handler ℕ (Args ℕ ℕ) (Reply ℕ ℕ)))
    (impl : RpcImplementation) (memory : CharStruct) where
  -- The constructor, with the functions that the RPC object has so far.
  unfoldable pub construct :
      ConfigurationManager
      → List ℕ
      → d.Table
      → files.T
      → Option (files.T × (Object files × d.Table))
  unfolding set_up bind_functions in_dir_string create attach to_string
  construct c name_ functions t =
      let name = (name_ ++ codes "_") ++ to_string (plus c.my_server) in
      bind_functions files d (bindings impl) functions (
        in_dir_string memory c.backed_file_dir name_ >>= λ backed_file.
        set_up files c c.memory_allocated name_ name backed_file (create files 65536 (λ n. n) 0)
          (attach files (λ n. n)) t)

  -- The destructor.
  unfoldable pub destroy : Object files → files.T → files.T
  unfolding Segment.destroy
  destroy o t = Segment.destroy files o t
