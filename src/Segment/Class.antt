-- ===== src/Segment/Class.antt =====
-- What the classes of containers have in common: a constructor that makes the members from the
-- configuration and the name, and goes to the segment by one of the two branches.
use basket.Prelude.{
  ℕ, ◌<◌, ◌≤◌, ◌≡◌, refl, ap, ◌∙◌, true, false, List, Option, none, some, length, codes, str_eq,
}
use basket.CharStruct.Defs.{CharStruct, text}
use basket.CharStruct.Text.{IsText}
use basket.Config.Defs.{ConfigurationManager}
use basket.Rpc.Names.{Name, Dispatcher, bind_all}
use basket.Segment.Files.{Shared, ManagedFiles}
use basket.Segment.Defs.{Members, Object, Branch, object, attach, set_up, bind_functions}
use basket.Segment.Paths.{path, numbered}
use basket.Segment.Attach.{
  Made, Keeps, attach-Made, set_up-server, set_up-client, set_up-exception, attach-gone,
}

module _ {C H : Type 0} (files : ManagedFiles (Shared C)) (d : Dispatcher H) where
  open files use {T, Segment, find}

  -- A constructor goes on with the texts that its initializers make of the name `a`.
  abbrev pub GoesOn :
      List (Name × H)
      → (ℕ → Branch files)
      → (List ℕ → List ℕ)
      → List ℕ
      → ConfigurationManager
      → d.Table
      → T
      → Option (T × (Object files × d.Table))
      → Type 0
  GoesOn bindings server object_name a c functions t r =
      (file : CharStruct) × (text file ≡ path c.backed_file_dir a c.my_server)
      × (r
          ≡ bind_functions files d bindings functions (
              set_up files c c.memory_allocated a (numbered a c.my_server) file
                (server c.memory_allocated) (attach files object_name) t))

  -- The parameter of the constructor is a `CharStruct` or a `std::string`.
  pub record Class : Type 1 where
    pub Text : Type 0
    pub name_of : Text → List ℕ
    pub IsName : Text → Type 0
    pub object_name : List ℕ → List ℕ
    pub initial : C
    pub bindings : List (Name × H)
    pub server : ℕ → Branch files
    pub construct :
        ConfigurationManager → Text → d.Table → T → Option (T × (Object files × d.Table))
    pub server-Made :
        (size : ℕ) (p name : List ℕ) (t : T)
        → 2 ≤ files.capacity size
        → str_eq (object_name name) (codes "mtx") ≡ false
        → (t' : T) × (m : Members files) × (server size p name t ≡ some (t', m))
          × Made files object_name initial p name t' m
          × Keeps files p t t'
    pub object_name-mtx :
        (name : List ℕ) (n : ℕ) → str_eq (object_name (numbered name n)) (codes "mtx") ≡ false
    pub constructs :
        (c : ConfigurationManager) (name_ : Text) (functions : d.Table) (t : T)
        → IsText c.backed_file_dir
        → IsName name_
        → length (path c.backed_file_dir (name_of name_) c.my_server) < 256
        → GoesOn bindings server object_name
            (name_of name_)
            c
            functions
            t
            (construct c name_ functions t)

  module _ (k : Class) where
    -- A call of the constructor, with the functions that the RPC object has so far.
    pub record Start : Type 0 where
      pub conf : ConfigurationManager
      pub name_ : k.Text
      pub functions : d.Table

    abbrev pub file_of : Start → List ℕ
    file_of s = path s.conf.backed_file_dir (k.name_of s.name_) s.conf.my_server

    abbrev pub object_of : Start → List ℕ
    object_of s = numbered (k.name_of s.name_) s.conf.my_server

    -- The texts have no NUL and fit into their arrays.
    abbrev pub Fits : Start → Type 0
    Fits s = IsText s.conf.backed_file_dir × k.IsName s.name_ × (length (file_of s) < 256)

    abbrev pub IsServer : Start → Type 0
    IsServer s = (s.conf.is_server ≡ true) × (2 ≤ files.capacity s.conf.memory_allocated) × Fits s

    abbrev pub MadeBy : Start → T → Members files → Type 0
    MadeBy s = Made files k.object_name k.initial (file_of s) (object_of s)

    -- The object of a server, and its functions.
    abbrev pub Started : Start → T → Object files × d.Table → Type 0
    Started s t x =
        MadeBy s t x.0.members
        × (x.0.handle.is_server ≡ true)
        × (text x.0.backed_file ≡ file_of s)
        × (x.1 ≡ bind_all d (k.name_of s.name_) k.bindings s.functions)

    abbrev pub construct_one : Start → T → Option (T × (Object files × d.Table))
    construct_one s = k.construct s.conf s.name_ s.functions

    -- The constructor on a server.
    pub server-Started :
        (s : Start) (t : T)
        → IsServer s
        → (t' : T) × (x : Object files × d.Table) × (construct_one s t ≡ some (t', x))
          × Started s t' x
          × Keeps files (file_of s) t t'
    unfolding bind_functions
    server-Started s t (is_server, size, (plain, word, short)) =
        let (file, at, run) = k.constructs s.conf s.name_ s.functions t plain word short in
        let (t', m, made, there, keeps) =
          k.server-Made s.conf.memory_allocated (file_of s) (object_of s) t size
            (k.object_name-mtx (k.name_of s.name_) s.conf.my_server) in
        let o =
          object files s.conf s.conf.memory_allocated (k.name_of s.name_) (object_of s) file m in
        let table = bind_all d (k.name_of s.name_) k.bindings s.functions in
        (
          t',
          (o, table),
          run
              ∙ rw
                  (
                    set_up-server files s.conf s.conf.memory_allocated (k.name_of s.name_)
                        (object_of s) file (k.server s.conf.memory_allocated)
                        (attach files k.object_name) t t' m is_server (rw at made),
                    is_server,
                  )
                  refl,
          (there, is_server, at, refl),
          keeps,
        )

    -- A client with a server on its node, and the name and number of that server.
    abbrev pub IsClientOf : Start → Start → Type 0
    IsClientOf s r =
        (r.conf.is_server ≡ false)
        × (r.conf.server_on_node ≡ true)
        × (r.conf.backed_file_dir ≡ s.conf.backed_file_dir)
        × (r.conf.my_server ≡ s.conf.my_server)
        × (r.name_ ≡ s.name_)

    -- The constructor on such a client: it gets the pointers of the server, and changes no file.
    pub client-attaches :
        (s r : Start) (t : T) (m : Members files)
        → Fits s
        → MadeBy s t m
        → IsClientOf s r
        → (o : Object files) × (construct_one r t ≡ some (t, (o, r.functions)))
          × (o.members ≡ m)
          × (o.handle.is_server ≡ false)
    unfolding bind_functions
    client-attaches s r t m (plain, word, short) made (client, near, dir, n, name_) =
        let names : k.name_of r.name_ ≡ k.name_of s.name_ = ap k.name_of name_ in
        let same : file_of r ≡ file_of s = rw (dir, names, n) refl in
        let same_object : object_of r ≡ object_of s = rw (names, n) refl in
        let (file, at, run) =
          k.constructs r.conf r.name_ r.functions t (rw dir plain) (rw name_ word)
            (rw same short) in
        let attached =
          attach-Made files k.object_name k.initial (file_of s) (object_of s) t m made in
        let o =
          object files r.conf r.conf.memory_allocated (k.name_of r.name_) (object_of r) file m in
        (
          o,
          run
              ∙ rw
                  (
                    set_up-client files r.conf r.conf.memory_allocated (k.name_of r.name_)
                        (object_of r) file (k.server r.conf.memory_allocated)
                        (attach files k.object_name) t t m client near
                        (rw (at, same, same_object) attached),
                    client,
                  )
                  refl,
          refl,
          client,
        )

    -- Without the file the constructor on such a client ends in an exception.
    pub client-exception :
        (s r : Start) (t : T)
        → Fits s
        → files.open_only (file_of s) t ≡ none
        → IsClientOf s r
        → construct_one r t ≡ none
    unfolding bind_functions
    client-exception s r t (plain, word, short) gone (client, near, dir, n, name_) =
        let names : k.name_of r.name_ ≡ k.name_of s.name_ = ap k.name_of name_ in
        let same : file_of r ≡ file_of s = rw (dir, names, n) refl in
        let (file, at, run) =
          k.constructs r.conf r.name_ r.functions t (rw dir plain) (rw name_ word)
            (rw same short) in
        let refused = attach-gone files k.object_name k.initial (file_of s) (object_of r) t gone in
        run
        ∙ rw
            (set_up-exception files r.conf r.conf.memory_allocated (k.name_of r.name_) (object_of r)
              file (k.server r.conf.memory_allocated) (attach files k.object_name) t client near
              (rw (at, same) refused))
            refl
