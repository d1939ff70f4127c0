-- ===== src/Segment/Construct.antt =====
-- The texts that the initializers of a constructor make: the names, and the path of the file.
use basket.Prelude.{
  ◌↔◌, ℕ, ◌<◌, ◌≤◌, ◌≡◌, refl, ap, arith, List, ◌++◌, Option, some, length, length-append, codes,
}
use basket.CharStruct.Defs.{CharStruct, text, of_string, copy}
use basket.CharStruct.Text.{IsArray, IsValid, IsText, copy-text}
use basket.Config.Defs.{ConfigurationManager}
use basket.Rpc.Address.{Holds, of_string-Holds}
use basket.Rpc.Names.{Name, Dispatcher}
use basket.Segment.Files.{Shared, ManagedFiles}
use basket.Segment.Defs.{
  Branch, construct, set_up, bind_functions, in_dir, in_dir_string, with_number, append_number,
}
use basket.Segment.Paths.{
  number, numbered, plain_path, path, path_iff, with_number-Holds, append_number-Holds,
  in_dir-Holds, in_dir_string-Holds,
}

-- Where the texts are held, the constructor goes on with them.
pub construct-set_up :
    {C : Type 0} (files : ManagedFiles (Shared C)) (c : ConfigurationManager)
    (prefix name file : Option CharStruct) (a b p : List ℕ) (server client : Branch files)
    (t : files.T)
    → Holds prefix a
    → Holds name b
    → Holds file p
    → (f : CharStruct) × (text f ≡ p)
      × (construct files c prefix name file server client t
          ≡ set_up files c c.memory_allocated a b f server client t)
unfolding construct
construct-set_up files c prefix name file a b p server client t (x, is_x, _, text_x)
      (y, is_y, _, text_y) (f, is_f, _, text_f) =
    (f, text_f, rw (is_x, is_y, is_f, text_x, text_y) refl)

length-path :
    (dir name_ : List ℕ) (n : ℕ)
    → (length name_ ≤ length (path dir name_ n))
      × (length (numbered name_ n) ≤ length (path dir name_ n))
      × (length (plain_path dir name_) ≤ length (path dir name_ n))
length-path dir name_ n =
    let l1 = length-append (dir ++ codes "/") name_ in
    let l2 = length-append (plain_path dir name_) (codes "_") in
    let l3 = length-append (plain_path dir name_ ++ codes "_") (number n) in
    let l4 = length-append name_ (codes "_") in
    let l5 = length-append (name_ ++ codes "_") (number n) in
    (omega (arith, l1, l2, l3), omega (arith, l1, l2, l3, l4, l5), omega (arith, l2, l3))

module _ (memory : CharStruct) (array : IsArray memory) (c : ConfigurationManager)
    (plain : IsText c.backed_file_dir) where
  -- The name as a `std::string`.
  module _ (name_ : List ℕ) (word : IsText name_)
      (fits : length (path c.backed_file_dir name_ c.my_server) < 256) where
    pub prefix-Holds : Holds (of_string memory name_) name_
    prefix-Holds =
        of_string-Holds memory array name_ word
          (omega (arith, fits, (length-path c.backed_file_dir name_ c.my_server).0))

    pub name-Holds :
        Holds
          (append_number memory (of_string memory name_) c.my_server)
          (numbered name_ c.my_server)
    name-Holds =
        append_number-Holds memory array _ name_ c.my_server prefix-Holds
          (omega (arith, fits, (length-path c.backed_file_dir name_ c.my_server).1))

    pub file-Holds :
        Holds
          (with_number memory (in_dir_string memory c.backed_file_dir name_) c.my_server)
          (path c.backed_file_dir name_ c.my_server)
    file-Holds =
        with_number-Holds memory array _ (plain_path c.backed_file_dir name_) c.my_server
          (in_dir_string-Holds memory array c.backed_file_dir name_ plain word
            (omega (arith, fits, (length-path c.backed_file_dir name_ c.my_server).2)))
          fits

  -- The name as a `CharStruct`.
  module _ (name_ : CharStruct) (valid : IsValid name_)
      (fits : length (path c.backed_file_dir (text name_) c.my_server) < 256) where
    pub copied-Holds : Holds (copy memory name_) (text name_)
    copied-Holds = (copy-text memory memory name_ array array valid).0

    pub copied_name-Holds :
        Holds
          (append_number memory (copy memory name_) c.my_server)
          (numbered (text name_) c.my_server)
    copied_name-Holds =
        append_number-Holds memory array _ (text name_) c.my_server copied-Holds
          (omega (arith, fits, (length-path c.backed_file_dir (text name_) c.my_server).1))

    -- The name by `+` and `=`.
    pub summed_name-Holds :
        Holds
          (with_number memory (copy memory name_) c.my_server)
          (numbered (text name_) c.my_server)
    summed_name-Holds =
        with_number-Holds memory array _ (text name_) c.my_server copied-Holds
          (omega (arith, fits, (length-path c.backed_file_dir (text name_) c.my_server).1))

    pub copied_file-Holds :
        Holds
          (with_number memory (in_dir memory c.backed_file_dir name_) c.my_server)
          (path c.backed_file_dir (text name_) c.my_server)
    copied_file-Holds =
        with_number-Holds memory array _ (plain_path c.backed_file_dir (text name_)) c.my_server
          (in_dir-Holds memory array c.backed_file_dir name_ plain valid
            (omega (arith, fits, (length-path c.backed_file_dir (text name_) c.my_server).2)))
          fits

-- Two objects of containers with names that are a `std::string`, with files in one directory, and with
-- names and paths that fit into their arrays: the paths of their files are the same exactly if the
-- objects have the same name and server number.
pub backed_file_iff :
    (memory : CharStruct) (c c' : ConfigurationManager) (name_ name_' : List ℕ)
    → IsArray memory
    → IsText c.backed_file_dir
    → c'.backed_file_dir ≡ c.backed_file_dir
    → IsText name_
    → IsText name_'
    → length (path c.backed_file_dir name_ c.my_server) < 256
    → length (path c'.backed_file_dir name_' c'.my_server) < 256
    → (f f' : CharStruct) × (with_number memory
          (in_dir_string memory c.backed_file_dir name_)
          c.my_server
        ≡ some f)
      × (with_number memory (in_dir_string memory c'.backed_file_dir name_') c'.my_server ≡ some f')
      × ((text f ≡ text f') ↔ ((name_ ≡ name_') × (c.my_server ≡ c'.my_server)))
backed_file_iff memory c c' name_ name_' array plain dir word word' fits fits' =
    let (f, is_f, _, has) = file-Holds memory array c plain name_ word fits in
    let (f', is_f', _, has') = file-Holds memory array c' (rw dir plain) name_' word' fits' in
    let same = path_iff c.backed_file_dir name_ name_' c.my_server c'.my_server in
    (f, f', is_f, is_f', rw (has, has', dir) same)

-- The constructors with a `std::string`, and those with a `CharStruct` and the name by `+=` or `+`.
module _ {C H : Type 0} (files : ManagedFiles (Shared C)) (d : Dispatcher H)
    (bindings : List (Name × H)) (memory : CharStruct) (array : IsArray memory)
    (c : ConfigurationManager) (functions : d.Table) (server client : Branch files) (t : files.T)
    (plain : IsText c.backed_file_dir) where
  -- A constructor with these initializers goes on with the texts of a name.
  abbrev GoesOn : List ℕ → Option CharStruct → Option CharStruct → Option CharStruct → Type 0
  GoesOn a prefix name file =
      (f : CharStruct) × (text f ≡ path c.backed_file_dir a c.my_server)
      × (bind_functions files d bindings functions
            (construct files c prefix name file server client t)
          ≡ bind_functions files d bindings functions
              (set_up files c c.memory_allocated a (numbered a c.my_server) f server client t))

  goes_on :
      (a : List ℕ) (prefix name file : Option CharStruct)
      → Holds prefix a
      → Holds name (numbered a c.my_server)
      → Holds file (path c.backed_file_dir a c.my_server)
      → GoesOn a prefix name file
  goes_on a prefix name file held_prefix held_name held_file =
      let (f, at, run) =
        construct-set_up files c prefix name file a _ _ server client t held_prefix held_name
          held_file in
      (f, at, ap (bind_functions files d bindings functions) run)

  pub string-GoesOn :
      (name_ : List ℕ)
      → IsText name_
      → length (path c.backed_file_dir name_ c.my_server) < 256
      → GoesOn name_
          (of_string memory name_)
          (append_number memory (of_string memory name_) c.my_server)
          (with_number memory (in_dir_string memory c.backed_file_dir name_) c.my_server)
  string-GoesOn name_ word fits =
      goes_on name_ _ _ _ (prefix-Holds memory array c plain name_ word fits)
        (name-Holds memory array c plain name_ word fits)
        (file-Holds memory array c plain name_ word fits)

  module _ (name_ : CharStruct) (valid : IsValid name_)
      (fits : length (path c.backed_file_dir (text name_) c.my_server) < 256) where
    pub copied-GoesOn :
        GoesOn
          (text name_)
          (copy memory name_)
          (append_number memory (copy memory name_) c.my_server)
          (with_number memory (in_dir memory c.backed_file_dir name_) c.my_server)
    copied-GoesOn =
        goes_on (text name_) _ _ _ (copied-Holds memory array c plain name_ valid fits)
          (copied_name-Holds memory array c plain name_ valid fits)
          (copied_file-Holds memory array c plain name_ valid fits)

    pub summed-GoesOn :
        GoesOn
          (text name_)
          (copy memory name_)
          (with_number memory (copy memory name_) c.my_server)
          (with_number memory (in_dir memory c.backed_file_dir name_) c.my_server)
    summed-GoesOn =
        goes_on (text name_) _ _ _ (copied-Holds memory array c plain name_ valid fits)
          (summed_name-Holds memory array c plain name_ valid fits)
          (copied_file-Holds memory array c plain name_ valid fits)
