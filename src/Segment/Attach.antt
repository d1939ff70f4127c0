-- ===== src/Segment/Attach.antt =====
-- What the branches of the constructors do to the files: a server makes its segment anew, and a client on
-- its node finds what the server made.
use basket.Prelude.{ℕ, ◌≤◌, ◌≡◌, refl, ◌∙◌, true, false, arith, List, none, some, codes, str_eq}
use basket.CharStruct.Defs.{CharStruct, text}
use basket.Segment.Files.{Shared, container, mutex, ManagedFiles}
use basket.Segment.Defs.{Members, Branch, object, set_up, create, attach, find_pointer}
use basket.Config.Defs.{ConfigurationManager}

module _ {C : Type 0} (files : ManagedFiles (Shared C)) (c : ConfigurationManager) (size : ℕ)
    (func_prefix name : List ℕ) (file : CharStruct) (server client : Branch files) (t t' : files.T)
    (m : Members files) where
  pub set_up-server :
      c.is_server ≡ true
      → server (text file) name t ≡ some (t', m)
      → set_up files c size func_prefix name file server client t
        ≡ some (t', object files c size func_prefix name file m)
  unfolding set_up
  set_up-server is_server run = rw is_server (rw run refl)

  pub set_up-client :
      c.is_server ≡ false
      → c.server_on_node ≡ true
      → client (text file) name t ≡ some (t', m)
      → set_up files c size func_prefix name file server client t
        ≡ some (t', object files c size func_prefix name file m)
  unfolding set_up
  set_up-client is_client near run = rw (is_client, near) (rw run refl)

module _ {C : Type 0} (files : ManagedFiles (Shared C)) (c : ConfigurationManager) (size : ℕ)
    (func_prefix name : List ℕ) (file : CharStruct) (server client : Branch files)
    (t : files.T) where
  pub set_up-exception :
      c.is_server ≡ false
      → c.server_on_node ≡ true
      → client (text file) name t ≡ none
      → set_up files c size func_prefix name file server client t ≡ none
  unfolding set_up
  set_up-exception is_client near run = rw (is_client, near) (rw run refl)

module _ {X : Type 0} (files : ManagedFiles X) where
  open files use {T, Segment, open_only, find}

  -- Only the file at the path changes, and no object is lost from a segment that is mapped.
  abbrev pub Keeps : List ℕ → T → T → Type 0
  Keeps path t t' =
      ((q : List ℕ) → str_eq path q ≡ false → open_only q t' ≡ open_only q t)
      × ((r : Segment) (n : List ℕ) (x : X) → find r n t ≡ some x → find r n t' ≡ some x)

  -- A new file at the path, whatever is there, with two objects in its segment.
  pub two_objects :
      (size : ℕ) (path n m : List ℕ) (x y : X) (t : T)
      → 2 ≤ files.capacity size
      → str_eq n m ≡ false
      → (t1 t2 t3 : T) × (s : Segment) × (files.create_only path size (files.remove path t)
          ≡ some (t1, s))
        × (files.construct s n x t1 ≡ some t2)
        × (files.construct s m y t2 ≡ some t3)
        × (open_only path t3 ≡ some s)
        × (find s n t3 ≡ some x)
        × (find s m t3 ≡ some y)
        × ((k : List ℕ) → str_eq n k ≡ false → str_eq m k ≡ false → find s k t3 ≡ none)
        × Keeps path t t3
  two_objects size path n m x y t fits apart =
      let removed = files.remove path t in
      let (t1, s, made, opened, space, bare, others1, stay1) =
        files.created path size removed (files.open-remove path t) (omega (arith, fits)) in
      let (t2, first, there2, space2, same2, opens2, stay2) =
        files.constructed s n x t1 (bare n) (omega (arith, fits, space)) in
      let (t3, second, there3, space3, same3, opens3, stay3) =
        files.constructed s m y t2 (same2 m apart ∙ bare m) (omega (arith, fits, space, space2)) in
      (
        t1,
        t2,
        t3,
        s,
        made,
        first,
        second,
        opens3 path ∙ opens2 path ∙ opened,
        stay3 s n x there2,
        there3,
        λ k from_n from_m. same3 k from_m ∙ same2 k from_n ∙ bare k,
        (
          λ q differ. opens3 q ∙ opens2 q ∙ others1 q differ ∙ files.open-remove_ne path q t differ,
          λ r k z found.
              stay3 r k z (stay2 r k z (stay1 r k z (files.find-remove path r k t ∙ found))),
        ),
      )

module _ {C : Type 0} (files : ManagedFiles (Shared C)) (object_name : List ℕ → List ℕ)
    (initial : C) where
  open files use {T, Segment, open_only, find}

  -- The file at the path has the segment that the members point into, with the container as it was
  -- made, and the mutex.
  abbrev pub Made : List ℕ → List ℕ → T → Members files → Type 0
  Made path name t m =
      (s : Segment) × (open_only path t ≡ some s)
      × (find s (object_name name) t ≡ some (container initial))
      × (find s (codes "mtx") t ≡ some mutex)
      × (m.segment ≡ some s)
      × (m.data_pointer ≡ some (s, object_name name))
      × (m.mutex_pointer ≡ some (s, codes "mtx"))

  -- The file at the path has nothing but these objects.
  abbrev pub Bare : List ℕ → List ℕ → T → Type 0
  Bare path name t =
      (s : Segment) × (open_only path t ≡ some s)
      × ((n : List ℕ)
          → str_eq (object_name name) n ≡ false
          → str_eq (codes "mtx") n ≡ false
          → find s n t ≡ none)

  pub create-Anew :
      (size : ℕ) (path name : List ℕ) (t : T)
      → 2 ≤ files.capacity size
      → str_eq (object_name name) (codes "mtx") ≡ false
      → (t' : T) × (m : Members files) × (create files size object_name initial path name t
          ≡ some (t', m))
        × Made path name t' m
        × Bare path name t'
        × Keeps files path t t'
  unfolding create
  create-Anew size path name t fits apart =
      let (t1, t2, t3, s, made, built, locked, opened, there, there3, bare, keeps) =
        two_objects files size path (object_name name) (codes "mtx") (container initial) mutex t
          fits apart in
      (
        t3,
        _,
        rw (made, built, locked) refl,
        (s, opened, there, there3, refl, refl, refl),
        (s, opened, bare),
        keeps,
      )

  -- Whatever file is at the path, the branch of a server succeeds, if the size is enough for the
  -- container and the mutex.
  pub create-Made :
      (size : ℕ) (path name : List ℕ) (t : T)
      → 2 ≤ files.capacity size
      → str_eq (object_name name) (codes "mtx") ≡ false
      → (t' : T) × (m : Members files) × (create files size object_name initial path name t
          ≡ some (t', m))
        × Made path name t' m
        × Keeps files path t t'
  create-Made size path name t fits apart =
      let (t', m, run, made, _, keeps) = create-Anew size path name t fits apart in
      (t', m, run, made, keeps)

  -- A client that opens the file gets the pointers of the server.
  pub attach-Made :
      (path name : List ℕ) (t : T) (m : Members files)
      → Made path name t m
      → attach files object_name path name t ≡ some (t, m)
  unfolding attach find_pointer
  attach-Made path name t m (s, opened, there, locked, is_s, is_data, is_mutex) =
      rw (opened, there, locked) (rw (← is_s, ← is_data, ← is_mutex) refl)

  -- What a server made stays when its file does and no object is lost.
  pub Made-kept :
      (path name : List ℕ) (t t' : T) (m : Members files)
      → open_only path t' ≡ open_only path t
      → ((r : Segment) (n : List ℕ) (x : Shared C) → find r n t ≡ some x → find r n t' ≡ some x)
      → Made path name t m
      → Made path name t' m
  Made-kept path name t t' m opens stay (s, opened, there, locked, is_s, is_data, is_mutex) = (
    s,
    opens ∙ opened,
    stay s (object_name name) (container initial) there,
    stay s (codes "mtx") mutex locked,
    is_s,
    is_data,
    is_mutex,
  )

  -- Where there is no file, the constructor of a client ends in an exception.
  pub attach-gone :
      (path name : List ℕ) (t : T)
      → open_only path t ≡ none
      → attach files object_name path name t ≡ none
  unfolding attach
  attach-gone path name t gone = rw gone refl

  -- A client that asks such a file for another name gets a null pointer.
  pub attach-Bare :
      (path name other : List ℕ) (t : T)
      → Bare path name t
      → str_eq (object_name name) (object_name other) ≡ false
      → str_eq (codes "mtx") (object_name other) ≡ false
      → (m : Members files) × (attach files object_name path other t ≡ some (t, m))
        × (m.data_pointer ≡ none)
  unfolding attach find_pointer
  attach-Bare path name other t (s, opened, bare) differ apart = (
    record {
      segment = some s;
      data_pointer = none;
      mutex_pointer = find_pointer files s (codes "mtx") t;
    },
    rw (opened, bare (object_name other) differ apart) refl,
    refl,
  )
