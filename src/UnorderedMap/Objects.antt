-- ===== src/UnorderedMap/Objects.antt =====
-- The objects of `basket::unordered_map`: the whole constructor, for a server and for a client, and the
-- destructor.
use basket.Prelude.{
  ◌<◌, length, ◌∙◌, ◌≤◌, ◌>>=◌, some, false, str_eq_comm, ℕ, ◌≡◌, refl, List, Option, codes, str_eq,
}
use basket.CharStruct.Defs.{CharStruct, text, copy}
use basket.CharStruct.Text.{IsArray, IsValid, IsText}
use basket.Config.Defs.{ConfigurationManager}
use basket.Rpc.Names.{Dispatcher}
use basket.Rpc.Cluster.{Handler, RpcImplementation}
use basket.Rpc.Wire.{Args, Reply}
use basket.Segment.Files.{Shared, container, mutex, ManagedFiles}
use basket.Segment.Defs as Segment
use basket.Segment.Defs.{Branch, Members, Object, attach, bind_functions, in_dir, with_number}
use basket.Segment.Paths.{path, numbered-mtx}
use basket.Segment.Attach.{Made, Keeps, two_objects}
use basket.Segment.Construct.{summed-GoesOn}
use basket.Segment.Class.{Class, GoesOn}
use basket.UnorderedMap.Defs.{bindings}
use basket.Container.Hashed.{Key, HashMap}

module _ {K V : Type 0} {key : Key K} (boost : HashMap V key) (mapped : V)
    (files : ManagedFiles (Shared boost.T))
    (d : Dispatcher (Handler boost.T (Args K V) (Reply K V))) (impl : RpcImplementation)
    (memory : CharStruct) where
  -- The branch of a server, which makes the mutex first.
  unfoldable pub server : ℕ → Branch files
  server size path name t = do
    (t1, s) ← files.create_only path size (files.remove path t)
    t2 ← files.construct s (codes "mtx") mutex t1
    t3 ← files.construct s name (container boost.empty) t2
    some (
      t3,
      record {
        segment = some s;
        data_pointer = some (s, name);
        mutex_pointer = some (s, codes "mtx");
      },
    )

  pub server-Made :
      (size : ℕ) (path name : List ℕ) (t : files.T)
      → 2 ≤ files.capacity size
      → str_eq name (codes "mtx") ≡ false
      → (t' : files.T) × (m : Members files) × (server size path name t ≡ some (t', m))
        × Made files (λ name. name) boost.empty path name t' m
        × Keeps files path t t'
  unfolding server
  server-Made size path name t fits apart =
      let (t1, t2, t3, s, made, locked, built, opened, there, there3, _, keeps) =
        two_objects files size path (codes "mtx") name mutex (container boost.empty) t fits
          (str_eq_comm (codes "mtx") name ∙ apart) in
      (t3, _, rw (made, locked, built) refl, (s, opened, there3, there, refl, refl, refl), keeps)

  -- The constructor, with the functions that the RPC object has so far.
  unfoldable pub construct :
      ConfigurationManager
      → CharStruct
      → d.Table
      → files.T
      → Option (files.T × (Object files × d.Table))
  unfolding Segment.construct bind_functions in_dir with_number server attach copy
  construct c name_ functions t = bind_functions files d (bindings boost mapped impl) functions (
      Segment.construct files c (copy memory name_)
        (with_number memory (copy memory name_) c.my_server)
        (with_number memory (in_dir memory c.backed_file_dir name_) c.my_server)
        (server c.memory_allocated) (attach files (λ name. name)) t)

  -- The destructor.
  unfoldable pub destroy : Object files → files.T → files.T
  unfolding Segment.destroy
  destroy o t = Segment.destroy files o t

  -- What the constructor makes of its parameter.
  pub constructs :
      IsArray memory
      → (c : ConfigurationManager) (name_ : CharStruct) (functions : d.Table) (t : files.T)
      → IsText c.backed_file_dir
      → IsValid name_
      → length (path c.backed_file_dir (text name_) c.my_server) < 256
      → GoesOn files d
          (bindings boost mapped impl)
          (λ size. server size)
          (λ name. name)
          (text name_)
          c
          functions
          t
          (construct c name_ functions t)
  unfolding construct
  constructs array c name_ functions t plain =
      summed-GoesOn files d (bindings boost mapped impl) memory array c functions
        (server c.memory_allocated) (attach files (λ name. name)) t plain name_

  abbrev pub unordered_map_class : IsArray memory → Class files d
  unordered_map_class array = record {
    Text = CharStruct;
    name_of = text;
    IsName = IsValid;
    object_name = λ name. name;
    initial = boost.empty;
    bindings = bindings boost mapped impl;
    server = λ size. server size;
    construct = construct;
    server-Made = server-Made;
    object_name-mtx = numbered-mtx;
    constructs = constructs array;
  }
