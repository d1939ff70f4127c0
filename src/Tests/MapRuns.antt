-- ===== src/Tests/MapRuns.antt =====
-- `basket::map` on two servers.
use basket.Prelude.{
  map, ℕ, ◌≡◌, refl, true, false, arith, List, [], ◌∷◌, none, some, codes, length, ◌≢◌, All, ap,
  str_eq,
}
use mathlib.Core.List.{Perm}
use basket.Container.Order.{same}
use basket.Container.Entries.{assign}
use basket.Container.Boost.{list_tree}
use basket.Rpc.Names.{Dispatcher, bind_all, lookup_name, Distinct}
use basket.Rpc.Suffixes.{Container, IsSuffix, bind_each, word-IsSuffix, containers-bound}
use basket.Rpc.Cluster.{Handler, Node, call, remote, rpclib}
use basket.Rpc.Gather.{collect}
use basket.Rpc.Hashing.{key_int}
use basket.Rpc.Wire.{Args, Reply}
use basket.Store.{effects, assoc}
use basket.Map.Defs.{
  MyMap, first, local_put, put_func, bindings, construct, put, contains, get_all_data,
}
use basket.Map.Remote.{
  IsValid, held, Becomes, map_put-Becomes, map_get_all_data-held, map_construct-IsValid,
}
use basket.Map.Contains.{map_contains-between}
use basket.Map.Callers.{run, map-run-Becomes}
use basket.Map.Configured.{handle, configure-map-IsValid}
use basket.CharStruct.Defs.{c_str}
use basket.Config.Defs as Config
use basket.Config.Defs.{
  ConfigurationManager, configure, load_servers, servers_of_line, split_loc, skip_spaces, count,
  digits, read_servers, emplace_names, in_array,
}
use basket.Tests.Base.{
  calls, results, nat_order, list_dispatcher, client_handle, hash, settled, each,
}

abbrev pub boost : MyMap ℕ ℕ
boost = list_tree first (assign first)

abbrev pub d : Dispatcher (Handler boost.T (Args ℕ ℕ) (Reply ℕ ℕ))
d = list_dispatcher (Handler boost.T (Args ℕ ℕ) (Reply ℕ ℕ))

-- A server that has run the constructor.
abbrev fresh : Node d
fresh = construct boost 0 d rpclib (codes "TEST") []

abbrev servers : List (Node d)
servers = fresh ∷ fresh ∷ []

-- The client has put 30 under 3, which belongs to server 1.
abbrev one_pair : List (Node d)
one_pair = fresh ∷ record fresh { segment = (3, 30) ∷ [] } ∷ []

-- And 50 under 5.
abbrev two_pairs : List (Node d)
two_pairs = fresh ∷ record fresh { segment = (3, 30) ∷ (5, 50) ∷ [] } ∷ []

constructed :
    IsValid boost 0 d rpclib hash client_handle servers
    × ((k : ℕ) → held boost 0 d rpclib hash client_handle servers k ≡ none)
constructed =
    map_construct-IsValid boost 0 d rpclib hash client_handle servers refl (omega arith)
      (omega arith)
      (λ i node at.
        ([], (λ n f _. refl), each (λ n. n ≡ fresh) servers (refl, (refl, tt)) i node at))

map-run-Becomes_example :
    Becomes boost 0 d rpclib hash client_handle servers
      (run boost 0 d rpclib hash client_handle calls servers)
      results
      (effects same 0 (map (λ c. c.1) calls) (held boost 0 d rpclib hash client_handle servers))
map-run-Becomes_example =
    map-run-Becomes boost 0 d rpclib hash client_handle calls servers
      (omega arith, (omega arith, (omega arith, (omega arith, tt)))) constructed.0

put_one : put boost 0 d hash client_handle 3 30 servers ≡ some (one_pair, true)
unfolding put remote call construct bindings bind_all key_int put_func local_put assign
put_one = refl

put_two : put boost 0 d hash client_handle 5 50 one_pair ≡ some (two_pairs, true)
unfolding put remote call construct bindings bind_all key_int put_func local_put assign
put_two = refl

one_pair-IsValid : IsValid boost 0 d rpclib hash client_handle one_pair
one_pair-IsValid =
    settled (map_put-Becomes boost 0 d rpclib hash client_handle servers constructed.0 3 30)
      one_pair put_one

two_pairs-IsValid : IsValid boost 0 d rpclib hash client_handle two_pairs
two_pairs-IsValid =
    settled (map_put-Becomes boost 0 d rpclib hash client_handle one_pair one_pair-IsValid 5 50)
      two_pairs put_two

map_get_all_data-held_example :
    (out : List (ℕ × ℕ)) × (get_all_data boost 0 d hash client_handle two_pairs
      ≡ some (two_pairs, out))
    × ((j : ℕ) → assoc same j out ≡ held boost 0 d rpclib hash client_handle two_pairs j)
    × Perm out ((3, 30) ∷ (5, 50) ∷ [])
unfolding collect construct
map_get_all_data-held_example =
    map_get_all_data-held boost 0 d rpclib hash client_handle two_pairs two_pairs-IsValid

map_contains-between_example :
    (out : List (ℕ × ℕ)) × (contains boost 0 d hash client_handle 4 6 two_pairs
      ≡ some (two_pairs, out))
    × Perm out ((5, 50) ∷ [])
unfolding collect construct
map_contains-between_example =
    map_contains-between boost 0 d rpclib hash client_handle two_pairs two_pairs-IsValid
      (each (λ n. length n.segment ≢ 1) two_pairs
        ((λ e. omega (arith, e)), ((λ e. omega (arith, e)), tt)))
      4 6

-- The file of a server list, and a process with rank 3.
abbrev lines : List (List ℕ)
lines = codes "n1" ∷ codes "n2" ∷ []

abbrev conf : ConfigurationManager
conf = Config.construct rpclib 4 3

configure-map-IsValid_example :
    (c' : ConfigurationManager) × (configure false (λ path. some lines) [] conf ≡ some c')
    × IsValid boost 0 d rpclib hash (handle c' (codes "TEST")) servers
    × ((k : ℕ) → held boost 0 d rpclib hash (handle c' (codes "TEST")) servers k ≡ none)
unfolding load_servers read_servers servers_of_line split_loc skip_spaces count digits c_str
    emplace_names in_array
configure-map-IsValid_example =
    configure-map-IsValid boost 0 d rpclib hash (codes "TEST") servers false (λ path. some lines) []
      conf lines lines (omega arith) refl refl (omega arith) (omega arith) refl
      (λ i node at.
        ([], (λ n f _. refl), each (λ n. n ≡ fresh) servers (refl, (refl, tt)) i node at))

-- Two maps of one server, with names that hold an underscore themselves.
abbrev two_maps : List (Container d)
two_maps = (codes "MAP_1", bindings boost 0 rpclib) ∷ (codes "MAP_2", bindings boost 0 rpclib) ∷ []

suffixes : All (λ b. IsSuffix b.0) (bindings boost 0 rpclib)
unfolding bindings
suffixes =
    let word = word-IsSuffix in
    (
      word (codes "Put") refl,
      (
        word (codes "Get") refl,
        (
          word (codes "Erase") refl,
          (word (codes "GetAllData") refl, (word (codes "Contains") refl, tt)),
        ),
      ),
    )

distinct : Distinct (bindings boost 0 rpclib)
unfolding bindings
distinct = (refl, (refl, (refl, (refl, (refl, tt)))))

put-bound : lookup_name (codes "_Put") (bindings boost 0 rpclib) ≡ some (put_func boost 0)
unfolding bindings
put-bound = refl

apart : codes "MAP_1" ≢ codes "MAP_2"
apart e = let same : false ≡ true = ap (λ n. str_eq n (codes "MAP_2")) e in cc

-- Each of the two maps puts into its own tree.
containers-bound_example :
    d.function (codes "MAP_2_Put") (bind_each d two_maps []) ≡ some (put_func boost 0)
containers-bound_example =
    containers-bound d two_maps [] ((suffixes, distinct), ((suffixes, distinct), tt))
      ((apart, tt), (tt, tt)) (λ i c n h at e. refl) 1 (codes "MAP_2", bindings boost 0 rpclib)
      (codes "_Put") (put_func boost 0) refl put-bound
