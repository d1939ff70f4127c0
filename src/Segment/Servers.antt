-- ===== src/Segment/Servers.antt =====
-- Several objects of one class on a machine: servers, their clients, and the end of a server.
use basket.Prelude.{
  ℕ, ◌≡◌, refl, ap, sym, ◌∙◌, false, List, [], ◌∷◌, Option, none, some, map, All, ◌>>=◌, str_eq,
  str_eq-eq, Bool-cases, inl, inr,
}
use basket.Rpc.Names.{Dispatcher}
use basket.Segment.Files.{Shared, ManagedFiles}
use basket.Segment.Defs.{Members, Object, destroy}
use basket.Segment.Paths.{path_iff}
use basket.Segment.Attach.{Made-kept}
use basket.Segment.Class.{
  Class, Start, Started, IsServer, Fits, IsClientOf, file_of, object_of, construct_one,
  server-Started, client-attaches, client-exception,
}

module _ {C H : Type 0} (files : ManagedFiles (Shared C)) (d : Dispatcher H)
    (k : Class files d) where
  open files use {T, Segment, open_only, find}

  abbrev pub MadeObject : Type 0
  MadeObject = Object files × d.Table

  -- The constructors, one after the other.
  abbrev pub start_all : List (Start files d k) → T → Option (T × List MadeObject)
  start_all [] t = some (t, [])
  start_all (s ∷ ss) t =
      construct_one files d k s t >>= λ r. start_all ss r.0 >>= λ rs. some (rs.0, r.1 ∷ rs.1)

  abbrev pub AllStarted : List (Start files d k) → T → List MadeObject → Type 0
  AllStarted [] t [] = Unit
  AllStarted [] t (x ∷ xs) = ⊥
  AllStarted (s ∷ ss) t [] = ⊥
  AllStarted (s ∷ ss) t (x ∷ xs) = Started files d k s t x × AllStarted ss t xs

  -- Servers with files in one directory, no two of them with the same name and number.
  abbrev pub AreServers : List ℕ → List (Start files d k) → Type 0
  AreServers dir [] = Unit
  AreServers dir (s ∷ ss) =
      IsServer files d k s
      × (s.conf.backed_file_dir ≡ dir)
      × All
          (λ r. ¬ ((k.name_of s.name_ ≡ k.name_of r.name_) × (s.conf.my_server ≡ r.conf.my_server)))
          ss
      × AreServers dir ss

  -- A client for each server.
  abbrev pub AreClients : List (Start files d k) → List (Start files d k) → Type 0
  AreClients [] [] = Unit
  AreClients [] (r ∷ rs) = ⊥
  AreClients (s ∷ ss) [] = ⊥
  AreClients (s ∷ ss) (r ∷ rs) = IsClientOf files d k s r × AreClients ss rs

  files-apart :
      (dir : List ℕ) (s r : Start files d k)
      → s.conf.backed_file_dir ≡ dir
      → r.conf.backed_file_dir ≡ dir
      → ¬ ((k.name_of s.name_ ≡ k.name_of r.name_) × (s.conf.my_server ≡ r.conf.my_server))
      → str_eq (file_of files d k r) (file_of files d k s) ≡ false
  files-apart dir s r at_s at_r differ =
      elim (Bool-cases (str_eq (file_of files d k r) (file_of files d k s))) [
        | inl same ↦
            let e = str_eq-eq (file_of files d k r) (file_of files d k s) same in
            let (names, numbers) =
              (path_iff dir (k.name_of r.name_) (k.name_of s.name_) r.conf.my_server
                  s.conf.my_server).0
                (rw (← at_r) (e ∙ rw (at_s, at_r) refl)) in
            absurd (differ (sym names, sym numbers))
        | inr other ↦ other
      ]

  -- The files of the servers change, and no other.
  abbrev KeepsAll : List (Start files d k) → T → T → Type 0
  KeepsAll ss t t' =
      ((q : List ℕ)
        → All (λ r. str_eq (file_of files d k r) q ≡ false) ss
        → open_only q t' ≡ open_only q t)
      × ((r : Segment) (n : List ℕ) (x : Shared C) → find r n t ≡ some x → find r n t' ≡ some x)

  Started-kept :
      (s : Start files d k) (ss : List (Start files d k)) (t t' : T) (x : MadeObject)
      → All (λ r. str_eq (file_of files d k r) (file_of files d k s) ≡ false) ss
      → KeepsAll ss t t'
      → Started files d k s t x
      → Started files d k s t' x
  Started-kept s ss t t' x apart (opens, stay) (made, is_server, at, bound) = (
    Made-kept files k.object_name k.initial (file_of files d k s) (object_of files d k s) t t'
        x.0.members (opens (file_of files d k s) apart) stay made,
    is_server,
    at,
    bound,
  )

  each_apart :
      (dir : List ℕ) (s : Start files d k) (ss : List (Start files d k))
      → s.conf.backed_file_dir ≡ dir
      → AreServers dir ss
      → All
          (λ r. ¬ ((k.name_of s.name_ ≡ k.name_of r.name_) × (s.conf.my_server ≡ r.conf.my_server)))
          ss
      → All (λ r. str_eq (file_of files d k r) (file_of files d k s) ≡ false) ss
  each_apart dir s [] at servers differ = tt
  each_apart dir s (r ∷ ss) at (_, at_r, _, rest) (one, others) =
      (files-apart dir s r at at_r one, each_apart dir s ss at rest others)

  -- Servers in one directory start one after the other, whatever files there are, and each keeps its
  -- segment, container and mutex.
  pub start_all-AllStarted :
      (dir : List ℕ) (ss : List (Start files d k)) (t : T)
      → AreServers dir ss
      → (t' : T) × (xs : List MadeObject) × (start_all ss t ≡ some (t', xs))
        × AllStarted ss t' xs
        × KeepsAll ss t t'
  start_all-AllStarted dir [] t servers = (t, [], refl, tt, ((λ q _. refl), (λ r n x found. found)))
  start_all-AllStarted dir (s ∷ ss) t (server, at, differ, rest) =
      let (t1, x, first, started, (opens1, stay1)) = server-Started files d k s t server in
      let (t', xs, later, all, (opens, stay)) = start_all-AllStarted dir ss t1 rest in
      (
        t',
        x ∷ xs,
        rw (first, later) refl,
        (Started-kept s ss t1 t' x (each_apart dir s ss at rest differ) (opens, stay) started, all),
        (
          (λ q apart. opens q apart.1 ∙ opens1 q apart.0),
          (λ r n y found. stay r n y (stay1 r n y found)),
        ),
      )

  abbrev pub members_of : MadeObject → Members files
  members_of x = x.0.members

  -- Their clients get the same pointers, and change no file.
  clients-attach :
      (dir : List ℕ) (ss rs : List (Start files d k)) (t : T) (xs : List MadeObject)
      → AreServers dir ss
      → AreClients ss rs
      → AllStarted ss t xs
      → (ys : List MadeObject) × (start_all rs t ≡ some (t, ys))
        × (map members_of ys ≡ map members_of xs)
  clients-attach dir [] [] t [] servers clients started = ([], refl, refl)
  clients-attach dir [] [] t (x ∷ xs) servers clients started = elim started [ ]
  clients-attach dir [] (r ∷ rs) t xs servers clients started = elim clients [ ]
  clients-attach dir (s ∷ ss) [] t xs servers clients started = elim clients [ ]
  clients-attach dir (s ∷ ss) (r ∷ rs) t [] servers clients started = elim started [ ]
  clients-attach dir (s ∷ ss) (r ∷ rs) t (x ∷ xs) (server, _, _, rest) (client, clients)
        (started, all) =
      let (o, run, same, _) =
        client-attaches files d k s r t x.0.members server.2 started.0 client in
      let (ys, later, others) = clients-attach dir ss rs t xs rest clients all in
      ((o, r.functions) ∷ ys, rw (run, later) refl, rw (same, others) refl)

  -- The servers start, and their clients after them.
  pub servers-clients :
      (dir : List ℕ) (ss rs : List (Start files d k)) (t : T)
      → AreServers dir ss
      → AreClients ss rs
      → (t' : T) × (made attached : List MadeObject) × (start_all ss t ≡ some (t', made))
        × (start_all rs t' ≡ some (t', attached))
        × (map members_of attached ≡ map members_of made)
  servers-clients dir ss rs t servers clients =
      let (t', made, run, all, _) = start_all-AllStarted dir ss t servers in
      let (attached, run', same) = clients-attach dir ss rs t' made servers clients all in
      (t', made, attached, run, run', same)

  destroy-removes :
      (s : Start files d k) (t : T) (x : MadeObject)
      → Started files d k s t x
      → destroy files x.0 t ≡ files.remove (file_of files d k s) t
  unfolding destroy
  destroy-removes s t x (_, is_server, at, _) = rw (is_server, at) refl

  -- After the destructor of a server's object the constructor of its clients ends in an exception,
  -- until the server is started again.
  pub destroy-gone :
      (s r : Start files d k) (t : T) (x : MadeObject)
      → Fits files d k s
      → Started files d k s t x
      → IsClientOf files d k s r
      → construct_one files d k r (destroy files x.0 t) ≡ none
  destroy-gone s r t x fits started client =
      let file = file_of files d k s in
      rw (destroy-removes s t x started) (
        client-exception files d k s r (files.remove file t) fits (files.open-remove file t) client)

  -- The other servers keep what they have.
  pub destroy-AllStarted :
      (dir : List ℕ) (s : Start files d k) (ss : List (Start files d k)) (t : T) (x : MadeObject)
      (xs : List MadeObject)
      → AreServers dir (s ∷ ss)
      → Started files d k s t x
      → AllStarted ss t xs
      → AllStarted ss (destroy files x.0 t) xs
  destroy-AllStarted dir s [] t x [] servers started all = tt
  destroy-AllStarted dir s [] t x (y ∷ ys) servers started all = elim all [ ]
  destroy-AllStarted dir s (r ∷ ss) t x [] servers started all = elim all [ ]
  destroy-AllStarted dir s (r ∷ ss) t x (y ∷ ys) (server, at, (one, others), (_, at_r, _, rest))
        started (first, all) =
      (
        Started-kept r (s ∷ []) t (destroy files x.0 t) y
            (files-apart dir r s at_r at (λ e. one (sym e.0, sym e.1)), tt)
            (rw (destroy-removes s t x started) (
              (λ q apart. files.open-remove_ne (file_of files d k s) q t apart.0),
              (λ n m z found. files.find-remove (file_of files d k s) n m t ∙ found),
            ))
            first,
        destroy-AllStarted dir s ss t x ys (server, at, others, rest) started all,
      )

  first_of :
      (s : Start files d k) (ss : List (Start files d k)) (t : T) (xs : List MadeObject)
      → AllStarted (s ∷ ss) t xs
      → (y : MadeObject) × (ys : List MadeObject) × (xs ≡ y ∷ ys) × AllStarted (s ∷ ss) t (y ∷ ys)
  first_of s ss t [] all = elim all [ ]
  first_of s ss t (y ∷ ys) all = (y, ys, refl, all)

  -- Servers start, and the destructor of the first one's object runs.
  pub servers-destroy :
      (dir : List ℕ) (s r : Start files d k) (ss : List (Start files d k)) (t : T)
      → AreServers dir (s ∷ ss)
      → IsClientOf files d k s r
      → (t' : T) × (x : MadeObject) × (xs : List MadeObject) × (start_all (s ∷ ss) t
          ≡ some (t', x ∷ xs))
        × (start_all (r ∷ []) (destroy files x.0 t') ≡ none)
        × AllStarted ss (destroy files x.0 t') xs
  servers-destroy dir s r ss t servers client =
      let (t', made, run, all, _) = start_all-AllStarted dir (s ∷ ss) t servers in
      let (x, xs, split, started) = first_of s ss t' made all in
      (
        t',
        x,
        xs,
        run ∙ ap (λ l. some (t', l)) split,
        rw (destroy-gone s r t' x servers.0.2 started.0 client) refl,
        destroy-AllStarted dir s ss t' x xs servers started.0 started.1,
      )
