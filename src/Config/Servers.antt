-- ===== src/Config/Servers.antt =====
-- The lines of the server list, and the server of a process.
use basket.Prelude.{
  zero, ltb, ap, ◌∙◌, ℕ, suc, ◌+◌, ◌-◌, ◌*◌, ◌%◌, ◌^◌, ◌<◌, ◌≤◌, ◌≡◌, refl, Bool, true, false,
  Option, if◌then◌else◌, ◌==◌, leb, ◌&&◌, ◌||◌, arith, List, [], ◌∷◌, ◌++◌, map, none, some, length,
  All,
}
use basket.CharStruct.Defs.{c_str}
use basket.Config.Defs.{
  split_loc, skip_spaces, digits, count, replicate, servers_of_line, read_servers, load_servers,
  as_int, in_array, emplace_names, ConfigurationManager, set_path, load, configure,
}

-- The bytes of a host name: no colon and no NUL.
abbrev pub IsPlain : List ℕ → Type 0
IsPlain = All (λ c. ((c == 58) ≡ false) × ((c == 0) ≡ false))

-- The value of decimal digits by their places.
abbrev pub value : List ℕ → ℕ
value [] = 0
value (x ∷ xs) = x * 10 ^ length xs + value xs

abbrev pub written : List ℕ → List ℕ
written = map (λ x. x + 48)

split-plain : (name net : List ℕ) → IsPlain name → split_loc (name ++ 58 ∷ net) ≡ some (name, net)
unfolding split_loc
split-plain [] net h = refl
split-plain (c ∷ cs) net h = rw (h.0.0, split-plain cs net h.1)

c_str-plain : (name : List ℕ) → IsPlain name → c_str name ≡ name
unfolding c_str
c_str-plain [] h = refl
c_str-plain (c ∷ cs) h = rw (h.0.1, c_str-plain cs h.1)

places : (n x p v : ℕ) → (n * 10 + x) * p + v ≡ n * (10 * p) + (x * p + v)
places n x p v = omega arith

digits-value :
    (n : ℕ) (xs : List ℕ)
    → All (λ x. x < 10) xs
    → digits n (written xs) ≡ n * 10 ^ length xs + value xs
unfolding digits
digits-value n [] h = omega arith
digits-value n (x ∷ xs) h =
    let digit : (leb 48 (x + 48) && leb (x + 48) 57) ≡ true = ground (arith, h.0) in
    let read : x + 48 - 48 ≡ x = omega arith in
    let more : 10 ^ suc (length xs) ≡ 10 * 10 ^ length xs = omega arith in
    rw (digit, read, digits-value (n * 10 + x) xs h.1, more)
      (places n x (10 ^ length xs) (value xs))

as_int-small : (n : ℕ) → n < 2 ^ 31 → as_int n ≡ some n
unfolding as_int
as_int-small n h = let small : ltb n (2 ^ 31) ≡ true = ground (arith, h) in rw small refl

count-value :
    (xs : List ℕ)
    → All (λ x. x < 10) xs
    → value xs < 2 ^ 31
    → count (skip_spaces (written xs)) ≡ some (value xs)
unfolding count skip_spaces
count-value [] h fits = refl
count-value (x ∷ xs) h fits =
    let text : ((x + 48) == 32 || (leb 9 (x + 48) && leb (x + 48) 13)) ≡ false = ground arith in
    let no_minus : ((x + 48) == 45) ≡ false = ground arith in
    let no_plus : ((x + 48) == 43) ≡ false = ground arith in
    let all : digits 0 (written (x ∷ xs)) ≡ value (x ∷ xs) =
      digits-value 0 (x ∷ xs) h ∙ omega arith in
    rw (text, no_minus, no_plus) (ap as_int all ∙ as_int-small (value (x ∷ xs)) fits)

-- A line of the server list: a host name, alone or with a count of servers in decimal digits.
pub data Entry : Type 0 where
  single : List ℕ → Entry
  several : List ℕ → List ℕ → Entry

abbrev pub print : Entry → List ℕ
print (single name) = name
print (several name xs) = name ++ 58 ∷ written xs

-- The name fits into its array, and the count into an `int`.
abbrev pub IsEntry : Entry → Type 0
IsEntry (single name) = IsPlain name × (length name < 256)
IsEntry (several name xs) =
    IsPlain name × (length name < 256) × All (λ x. x < 10) xs × (value xs < 2 ^ 31)

-- Each host as often as its line counts it, in the order of the lines.
abbrev pub listed : List Entry → List (List ℕ)
listed [] = []
listed (single name ∷ es) = name ∷ listed es
listed (several name xs ∷ es) = replicate (value xs) name ++ listed es

split-single : (name : List ℕ) → IsPlain name → split_loc name ≡ none
unfolding split_loc
split-single [] h = refl
split-single (c ∷ cs) h = rw (h.0.0, split-single cs h.1)

servers-single : (name : List ℕ) → IsPlain name → servers_of_line name ≡ some (name ∷ [])
unfolding servers_of_line
servers-single name h = rw (split-single name h, servers_of_line) (rw (c_str-plain name h) refl)

servers-several :
    (name xs : List ℕ)
    → IsPlain name
    → All (λ x. x < 10) xs
    → value xs < 2 ^ 31
    → servers_of_line (name ++ 58 ∷ written xs) ≡ some (replicate (value xs) name)
unfolding servers_of_line
servers-several name xs h ds fits =
    rw (split-plain name (written xs) h, servers_of_line)
      (rw (count-value xs ds fits, c_str-plain name h) refl)

read_servers-print :
    (es : List Entry) → All IsEntry es → read_servers (map print es) ≡ some (listed es)
unfolding read_servers
read_servers-print [] h = refl
read_servers-print (single name ∷ es) h =
    rw (servers-single name h.0.0, read_servers-print es h.1) refl
read_servers-print (several name xs ∷ es) ((plain, short, ds, fits), h) =
    rw (servers-several name xs plain ds fits, read_servers-print es h) refl

Short : List (List ℕ) → Type 0
Short = All (λ n. length n < 256)

Short-replicate :
    (n : ℕ) (name : List ℕ) (rest : List (List ℕ))
    → length name < 256
    → Short rest
    → Short (replicate n name ++ rest)
unfolding Short
Short-replicate zero name rest short all = all
Short-replicate (suc n) name rest short all = (short, Short-replicate n name rest short all)

listed-Short : (es : List Entry) → All IsEntry es → Short (listed es)
unfolding Short
listed-Short [] h = tt
listed-Short (single name ∷ es) h = (h.0.1, listed-Short es h.1)
listed-Short (several name xs ∷ es) h =
    Short-replicate (value xs) name (listed es) h.0.1 (listed-Short es h.1)

emplace_names-Short : (names : List (List ℕ)) → Short names → emplace_names names ≡ some names
unfolding emplace_names in_array Short
emplace_names-Short [] h = refl
emplace_names-Short (n ∷ names) h =
    let short : ltb (length n) 256 ≡ true = ground (arith, h.0) in
    rw (short, emplace_names-Short names h.1) refl

-- For lines that are printed entries, of host names of at most 255 bytes without a colon or NUL, and of
-- counts in decimal digits that an `int` holds, `LoadServers` returns each host as often as its line
-- counts it, in the order of the lines.
pub load_servers-print :
    (es : List Entry) → All IsEntry es → load_servers (map print es) ≡ some (listed es)
unfolding load_servers
load_servers-print es h =
    rw (read_servers-print es h) (emplace_names-Short (listed es) (listed-Short es h))

-- The path given, or else the one set before.
abbrev pub path_of : List ℕ → ConfigurationManager → List ℕ
path_of path c = if leb 1 (length path) then c_str path else c.server_list_path

set_path-at :
    (path : List ℕ) (c : ConfigurationManager)
    → length (c_str path) < 256
    → (c' : ConfigurationManager) × (set_path path c ≡ some c')
      × (c'.server_list_path ≡ path_of path c)
      × (c'.mpi_rank ≡ c.mpi_rank)
      × (c'.rpc_port ≡ c.rpc_port)
unfolding set_path in_array
set_path-at [] c short = (c, refl, refl, refl, refl)
set_path-at (b ∷ bs) c short =
    let fits : ltb (length (c_str (b ∷ bs))) 256 ≡ true = ground (arith, short) in
    let some_path : leb 1 (length (b ∷ bs)) ≡ true = ground arith in
    (record c { server_list_path = c_str (b ∷ bs) }, rw fits refl, rw some_path refl, refl, refl)

-- Where the path given fits into its array, the file at it, or else at the one set before, can be opened,
-- and `LoadServers` makes a list of 1 to 2 ^ 16 servers of its lines, both default configurations
-- succeed: SERVER_LIST is that list, NUM_SERVERS its length, MY_SERVER is the rank modulo it, one of the
-- listed servers, and IS_SERVER and SERVER_ON_NODE are set for a server and unset for a client. The rank
-- and the port stay.
pub configure-home :
    (server : Bool) (files : List ℕ → Option (List (List ℕ))) (server_list_path : List ℕ)
    (c : ConfigurationManager) (lines list : List (List ℕ))
    → length (c_str server_list_path) < 256
    → files (path_of server_list_path c) ≡ some lines
    → load_servers lines ≡ some list
    → 0 < length list
    → length list ≤ 2 ^ 16
    → (c' : ConfigurationManager) × (configure server files server_list_path c ≡ some c')
      × (c'.server_list ≡ list)
      × (length c'.server_list ≡ c'.num_servers)
      × (c'.my_server < c'.num_servers)
      × (c'.my_server ≡ c.mpi_rank % c'.num_servers)
      × (c'.is_server ≡ server)
      × (c'.server_on_node ≡ server)
      × (c'.mpi_rank ≡ c.mpi_rank)
      × (c'.rpc_port ≡ c.rpc_port)
unfolding configure load
configure-home server files path c lines list short open_file loaded some_server fits =
    let n = length list in
    let (at_path, set, there, rank, port) = set_path-at path c short in
    let listed_some : (n == 0) ≡ false = ground arith in
    let home : c.mpi_rank % n % 2 ^ 16 ≡ c.mpi_rank % n = omega (arith, some_server, fits) in
    let configured : ConfigurationManager = record at_path {
      server_list = list;
      num_servers = n;
      is_server = server;
      my_server = at_path.mpi_rank % n % 2 ^ 16;
      server_on_node = server;
    } in
    (
      configured,
      rw set (rw (there, open_file, loaded, listed_some) refl),
      refl,
      refl,
      rw (rank, home) (omega (arith, some_server)),
      rw rank home,
      refl,
      refl,
      rank,
      port,
    )
