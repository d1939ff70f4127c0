-- ===== src/Set/Objects.antt =====
-- The objects of `basket::set`: the whole constructor, for a server and for a client, and the
-- destructor.
use basket.Prelude.{◌<◌, length, Option}
use basket.Container.Order.{Order}
use basket.CharStruct.Defs.{CharStruct, text, copy}
use basket.CharStruct.Text.{IsArray, IsValid, IsText}
use basket.Config.Defs.{ConfigurationManager}
use basket.Rpc.Names.{Dispatcher}
use basket.Rpc.Cluster.{Handler, RpcImplementation}
use basket.Rpc.Wire.{Args, Reply}
use basket.Segment.Files.{Shared, ManagedFiles}
use basket.Segment.Defs as Segment
use basket.Segment.Defs.{Object, create, attach, bind_functions, in_dir, with_number, append_number}
use basket.Segment.Paths.{path, numbered-mtx}
use basket.Segment.Attach.{create-Made}
use basket.Segment.Construct.{copied-GoesOn}
use basket.Segment.Class.{Class, GoesOn}
use basket.Set.Defs.{MySet, bindings}

module _ {K : Type 0} ⦃o : Order K⦄ (boost : MySet K) (fallback : K)
    (files : ManagedFiles (Shared boost.T))
    (d : Dispatcher (Handler boost.T (Args K K) (Reply K K))) (impl : RpcImplementation)
    (memory : CharStruct) where
  -- The constructor, with the functions that the RPC object has so far.
  unfoldable pub construct :
      ConfigurationManager
      → CharStruct
      → d.Table
      → files.T
      → Option (files.T × (Object files × d.Table))
  unfolding Segment.construct bind_functions in_dir with_number append_number create attach copy
  construct c name_ functions t = bind_functions files d (bindings boost fallback impl) functions (
      Segment.construct files c (copy memory name_)
        (append_number memory (copy memory name_) c.my_server)
        (with_number memory (in_dir memory c.backed_file_dir name_) c.my_server)
        (create files c.memory_allocated (λ name. name) boost.empty) (attach files (λ name. name))
        t)

  -- The destructor.
  unfoldable pub destroy : Object files → files.T → files.T
  unfolding Segment.destroy
  destroy o t = Segment.destroy files o t

  -- What the constructor makes of its parameter.
  pub constructs :
      IsArray memory
      → (c : ConfigurationManager) (name_ : CharStruct) (functions : d.Table) (t : files.T)
      → IsText c.backed_file_dir
      → IsValid name_
      → length (path c.backed_file_dir (text name_) c.my_server) < 256
      → GoesOn files d
          (bindings boost fallback impl)
          (λ size. create files size (λ name. name) boost.empty)
          (λ name. name)
          (text name_)
          c
          functions
          t
          (construct c name_ functions t)
  unfolding construct
  constructs array c name_ functions t plain =
      copied-GoesOn files d (bindings boost fallback impl) memory array c functions
        (create files c.memory_allocated (λ name. name) boost.empty) (attach files (λ name. name)) t
        plain name_

  abbrev pub set_class : IsArray memory → Class files d
  set_class array = record {
    Text = CharStruct;
    name_of = text;
    IsName = IsValid;
    object_name = λ name. name;
    initial = boost.empty;
    bindings = bindings boost fallback impl;
    server = λ size. create files size (λ name. name) boost.empty;
    construct = construct;
    server-Made = create-Made files (λ name. name) boost.empty;
    object_name-mtx = numbered-mtx;
    constructs = constructs array;
  }
