-- ===== src/PriorityQueue/Objects.antt =====
-- The objects of `basket::priority_queue`: the whole constructor, for a server and for a client, and the
-- destructor.
use basket.Prelude.{◌<◌, length, ℕ, refl, List, Option, codes}
use basket.Container.Order.{Order}
use basket.CharStruct.Defs.{CharStruct, of_string}
use basket.CharStruct.Text.{IsArray, IsText}
use basket.Config.Defs.{ConfigurationManager}
use basket.Rpc.Names.{Dispatcher}
use basket.Rpc.Cluster.{Handler, RpcImplementation}
use basket.Rpc.Wire.{Args, Reply}
use basket.Segment.Files.{Shared, ManagedFiles}
use basket.Segment.Defs as Segment
use basket.Segment.Defs.{
  Object, create, attach, bind_functions, in_dir_string, with_number, append_number,
}
use basket.Segment.Paths.{path}
use basket.Segment.Attach.{create-Made}
use basket.Segment.Construct.{string-GoesOn}
use basket.Segment.Class.{Class, GoesOn}
use basket.PriorityQueue.Defs.{bindings}
use basket.Container.Heap.{Heap}

module _ {V : Type 0} ⦃o : Order V⦄ (std : Heap V) (mapped : V)
    (files : ManagedFiles (Shared std.T)) (d : Dispatcher (Handler std.T (Args V V) (Reply V V)))
    (impl : RpcImplementation) (memory : CharStruct) where
  -- The constructor, with the functions that the RPC object has so far.
  unfoldable pub construct :
      ConfigurationManager
      → List ℕ
      → d.Table
      → files.T
      → Option (files.T × (Object files × d.Table))
  unfolding Segment.construct bind_functions in_dir_string with_number append_number create attach
      of_string
  construct c name_ functions t = bind_functions files d (bindings std mapped impl) functions (
      Segment.construct files c (of_string memory name_)
        (append_number memory (of_string memory name_) c.my_server)
        (with_number memory (in_dir_string memory c.backed_file_dir name_) c.my_server)
        (create files c.memory_allocated (λ name. codes "Queue") std.empty)
        (attach files (λ name. codes "Queue")) t)

  -- The destructor.
  unfoldable pub destroy : Object files → files.T → files.T
  unfolding Segment.destroy
  destroy o t = Segment.destroy files o t

  -- What the constructor makes of its parameter.
  pub constructs :
      IsArray memory
      → (c : ConfigurationManager) (name_ : List ℕ) (functions : d.Table) (t : files.T)
      → IsText c.backed_file_dir
      → IsText name_
      → length (path c.backed_file_dir name_ c.my_server) < 256
      → GoesOn files d
          (bindings std mapped impl)
          (λ size. create files size (λ name. codes "Queue") std.empty)
          ((λ name. codes "Queue"))
          name_
          c
          functions
          t
          (construct c name_ functions t)
  unfolding construct
  constructs array c name_ functions t plain =
      string-GoesOn files d (bindings std mapped impl) memory array c functions
        (create files c.memory_allocated (λ name. codes "Queue") std.empty)
        (attach files (λ name. codes "Queue")) t plain name_

  abbrev pub priority_queue_class : IsArray memory → Class files d
  priority_queue_class array = record {
    Text = List ℕ;
    name_of = λ name_. name_;
    IsName = IsText;
    object_name = (λ name. codes "Queue");
    initial = std.empty;
    bindings = bindings std mapped impl;
    server = λ size. create files size (λ name. codes "Queue") std.empty;
    construct = construct;
    server-Made = create-Made files (λ name. codes "Queue") std.empty;
    object_name-mtx = λ name n. refl;
    constructs = constructs array;
  }
