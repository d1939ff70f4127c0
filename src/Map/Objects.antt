-- ===== src/Map/Objects.antt =====
-- The objects of `basket::map`: the whole constructor, for a server and for a client, and the
-- destructor.
use basket.Prelude.{◌<◌, length, ℕ, List, Option}
use basket.Container.Order.{Order}
use basket.CharStruct.Defs.{CharStruct, of_string}
use basket.CharStruct.Text.{IsArray, IsText}
use basket.Config.Defs.{ConfigurationManager}
use basket.Rpc.Names.{Dispatcher}
use basket.Rpc.Cluster.{Handler, RpcImplementation}
use basket.Rpc.Wire.{Args, Reply}
use basket.Segment.Files.{Shared, ManagedFiles}
use basket.Segment.Defs as Segment
use basket.Segment.Defs.{
  Object, create, attach, bind_functions, in_dir_string, with_number, append_number,
}
use basket.Segment.Paths.{path, numbered-mtx}
use basket.Segment.Attach.{create-Made}
use basket.Segment.Construct.{string-GoesOn}
use basket.Segment.Class.{Class, GoesOn}
use basket.Map.Defs.{MyMap, bindings}

module _ {K V : Type 0} ⦃o : Order K⦄ (boost : MyMap K V) (mapped : V)
    (files : ManagedFiles (Shared boost.T))
    (d : Dispatcher (Handler boost.T (Args K V) (Reply K V))) (impl : RpcImplementation)
    (memory : CharStruct) where
  -- The constructor, with the functions that the RPC object has so far.
  unfoldable pub construct :
      ConfigurationManager
      → List ℕ
      → d.Table
      → files.T
      → Option (files.T × (Object files × d.Table))
  unfolding Segment.construct bind_functions in_dir_string with_number append_number create attach
      of_string
  construct c name_ functions t = bind_functions files d (bindings boost mapped impl) functions (
      Segment.construct files c (of_string memory name_)
        (append_number memory (of_string memory name_) c.my_server)
        (with_number memory (in_dir_string memory c.backed_file_dir name_) c.my_server)
        (create files c.memory_allocated (λ name. name) boost.empty) (attach files (λ name. name))
        t)

  -- The destructor.
  unfoldable pub destroy : Object files → files.T → files.T
  unfolding Segment.destroy
  destroy o t = Segment.destroy files o t

  -- What the constructor makes of its parameter.
  pub constructs :
      IsArray memory
      → (c : ConfigurationManager) (name_ : List ℕ) (functions : d.Table) (t : files.T)
      → IsText c.backed_file_dir
      → IsText name_
      → length (path c.backed_file_dir name_ c.my_server) < 256
      → GoesOn files d
          (bindings boost mapped impl)
          (λ size. create files size (λ name. name) boost.empty)
          (λ name. name)
          name_
          c
          functions
          t
          (construct c name_ functions t)
  unfolding construct
  constructs array c name_ functions t plain =
      string-GoesOn files d (bindings boost mapped impl) memory array c functions
        (create files c.memory_allocated (λ name. name) boost.empty) (attach files (λ name. name)) t
        plain name_

  abbrev pub map_class : IsArray memory → Class files d
  map_class array = record {
    Text = List ℕ;
    name_of = λ name_. name_;
    IsName = IsText;
    object_name = λ name. name;
    initial = boost.empty;
    bindings = bindings boost mapped impl;
    server = λ size. create files size (λ name. name) boost.empty;
    construct = construct;
    server-Made = create-Made files (λ name. name) boost.empty;
    object_name-mtx = numbered-mtx;
    constructs = constructs array;
  }
