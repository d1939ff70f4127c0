-- ===== src/Segment/Unnumbered.antt =====
-- The constructors of src/basket/sequencer/global_sequence.cpp and src/basket/clock/global_clock.cpp, whose
-- file has no server number in its name.
use basket.Prelude.{
  ℕ, ◌<◌, ◌≤◌, ◌≡◌, refl, ap, ◌∙◌, true, false, List, Option, some, length, codes, ◌>>=◌, str_eq,
}
use basket.CharStruct.Defs.{CharStruct}
use basket.CharStruct.Text.{IsArray, IsText}
use basket.Config.Defs.{ConfigurationManager}
use basket.Rpc.Names.{Name, Dispatcher, bind_all}
use basket.Segment.Files.{Shared, ManagedFiles}
use basket.Segment.Defs.{
  Object, Members, object, create, attach, set_up, bind_functions, in_dir_string,
}
use basket.Segment.Paths.{numbered, plain_path, in_dir_string-Holds}
use basket.Segment.Attach.{Made, Bare, Keeps, create-Anew, set_up-server, set_up-client}

module _ {C H : Type 0} (files : ManagedFiles (Shared C)) (d : Dispatcher H)
    (bindings : List (Name × H)) (memory : CharStruct) (array : IsArray memory) (name_ : List ℕ)
    (word : IsText name_) (object_name : List ℕ → List ℕ) (initial : C)
    (size : ConfigurationManager → ℕ) where
  -- The directory of the file, and room for the path and for the objects.
  abbrev pub InDir : List ℕ → ConfigurationManager → Type 0
  InDir dir c = (c.backed_file_dir ≡ dir) × IsText dir × (length (plain_path dir name_) < 256)

  abbrev pub constructor :
      ConfigurationManager → d.Table → files.T → Option (files.T × (Object files × d.Table))
  constructor c functions t = bind_functions files d bindings functions (
      in_dir_string memory c.backed_file_dir name_ >>= λ backed_file.
      set_up files c (size c) name_ (numbered name_ c.my_server) backed_file
        (create files 65536 object_name initial) (attach files object_name) t)

  -- The constructor on a server: a file with nothing but its objects.
  pub server-Anew :
      (dir : List ℕ) (c : ConfigurationManager) (functions : d.Table) (t : files.T)
      → InDir dir c
      → c.is_server ≡ true
      → 2 ≤ files.capacity 65536
      → str_eq (object_name (numbered name_ c.my_server)) (codes "mtx") ≡ false
      → (t' : files.T) × (x : Object files × d.Table) × (constructor c functions t ≡ some (t', x))
        × Made files object_name initial
            (plain_path dir name_)
            (numbered name_ c.my_server)
            t'
            x.0.members
        × Bare files object_name initial (plain_path dir name_) (numbered name_ c.my_server) t'
        × Keeps files (plain_path dir name_) t t'
  unfolding bind_functions
  server-Anew dir c functions t (at, plain, fits) is_server room apart =
      let (file, is_file, _, has) = in_dir_string-Holds memory array dir name_ plain word fits in
      let made_file = ap (λ p. in_dir_string memory p name_) at ∙ is_file in
      let name = numbered name_ c.my_server in
      let (t', m, created, made, bare, keeps) =
        create-Anew files object_name initial 65536 (plain_path dir name_) name t room apart in
      let started =
        set_up-server files c (size c) name_ name file (create files 65536 object_name initial)
          (attach files object_name) t t' m is_server (rw has created) in
      (
        t',
        (object files c (size c) name_ name file m, bind_all d name_ bindings functions),
        rw (made_file, started) (rw is_server refl),
        made,
        bare,
        keeps,
      )

  -- The constructor on a client with a server on its node gets what the file has.
  pub client-attached :
      (dir : List ℕ) (c : ConfigurationManager) (functions : d.Table) (t : files.T)
      (m : Members files)
      → InDir dir c
      → c.is_server ≡ false
      → c.server_on_node ≡ true
      → attach files object_name (plain_path dir name_) (numbered name_ c.my_server) t ≡ some (t, m)
      → (o : Object files) × (constructor c functions t ≡ some (t, (o, functions)))
        × (o.members ≡ m)
  unfolding bind_functions
  client-attached dir c functions t m (at, plain, fits) is_client near attached =
      let (file, is_file, _, has) = in_dir_string-Holds memory array dir name_ plain word fits in
      let made_file = ap (λ p. in_dir_string memory p name_) at ∙ is_file in
      let name = numbered name_ c.my_server in
      let started =
        set_up-client files c (size c) name_ name file (create files 65536 object_name initial)
          (attach files object_name) t t m is_client near (rw has attached) in
      (object files c (size c) name_ name file m, rw (made_file, started) (rw is_client refl), refl)
