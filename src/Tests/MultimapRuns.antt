-- ===== src/Tests/MultimapRuns.antt =====
-- `basket::multimap` on two servers.
use basket.Prelude.{
  ltb, false, ◌/◌, ◌||◌, map, ℕ, ◌≡◌, refl, Bool, true, arith, List, [], ◌∷◌, none, some, codes,
  ◌==◌,
}
use basket.Container.Order.{same}
use basket.Container.Entries.{insert}
use basket.Container.Boost.{list_tree, place}
use basket.Rpc.Names.{Dispatcher, bind_all}
use basket.Rpc.Cluster.{Handler, Node, call, remote, rpclib}
use basket.Rpc.Hashing.{key_int}
use basket.Rpc.Wire.{Args, Reply}
use basket.Store.{effects, assoc}
use mathlib.Core.List.{Perm}
use basket.Rpc.Gather.{collect}
use basket.Map.Defs.{first}
use basket.Multimap.Defs.{
  MyMultimap, local_put, put_func, bindings, construct, put, get_all_data, local_contains_in_server,
}
use basket.Multimap.Remote.{
  IsValid, held, Becomes, multimap_put-Becomes, multimap_construct-IsValid,
  multimap_get_all_data-held,
}
use basket.Multimap.Contains.{multimap_local_contains-keep}
use basket.Multimap.Callers.{run, multimap-run-Becomes}
use basket.Tests.Base.{
  calls, results, nat_order, list_dispatcher, client_handle, hash, settled, each,
}

abbrev boost : MyMultimap ℕ ℕ
boost = list_tree first (insert first)

-- Keys that contain each other if they are equal.
abbrev equals : ℕ → ℕ → Bool
equals a b = a == b

abbrev d : Dispatcher (Handler boost.T (Args ℕ ℕ) (Reply ℕ ℕ))
d = list_dispatcher (Handler boost.T (Args ℕ ℕ) (Reply ℕ ℕ))

-- A server that has run the constructor.
abbrev fresh : Node d
fresh = construct boost 0 equals d rpclib (codes "TEST") []

abbrev servers : List (Node d)
servers = fresh ∷ fresh ∷ []

-- The client has put 30 under 3, which belongs to server 1.
abbrev one_pair : List (Node d)
one_pair = fresh ∷ record fresh { segment = (3, 30) ∷ [] } ∷ []

-- And 50 under 5.
abbrev two_pairs : List (Node d)
two_pairs = fresh ∷ record fresh { segment = (3, 30) ∷ (5, 50) ∷ [] } ∷ []

constructed :
    IsValid boost 0 equals d rpclib hash client_handle servers
    × ((k : ℕ) → held boost 0 equals d rpclib hash client_handle servers k ≡ none)
constructed =
    multimap_construct-IsValid boost 0 equals d rpclib hash client_handle servers refl (omega arith)
      (omega arith)
      (λ i node at.
        ([], (λ n f _. refl), each (λ n. n ≡ fresh) servers (refl, (refl, tt)) i node at))

multimap-run-Becomes_example :
    Becomes boost 0 equals d rpclib hash client_handle servers
      (run boost 0 equals d rpclib hash client_handle calls servers)
      results
      (effects same 0
        (map (λ c. c.1) calls)
        (held boost 0 equals d rpclib hash client_handle servers))
multimap-run-Becomes_example =
    multimap-run-Becomes boost 0 equals d rpclib hash client_handle calls servers
      (omega arith, (omega arith, (omega arith, (omega arith, tt)))) constructed.0

put_one : put boost 0 equals d hash client_handle 3 30 servers ≡ some (one_pair, true)
unfolding put remote call construct bindings bind_all key_int put_func local_put insert place
put_one = refl

put_two : put boost 0 equals d hash client_handle 5 50 one_pair ≡ some (two_pairs, true)
unfolding put remote call construct bindings bind_all key_int put_func local_put insert place
put_two = refl

one_pair-IsValid : IsValid boost 0 equals d rpclib hash client_handle one_pair
one_pair-IsValid =
    settled
      (multimap_put-Becomes boost 0 equals d rpclib hash client_handle servers constructed.0 3 30)
      one_pair put_one

two_pairs-IsValid : IsValid boost 0 equals d rpclib hash client_handle two_pairs
two_pairs-IsValid =
    settled
      (multimap_put-Becomes boost 0 equals d rpclib hash client_handle one_pair one_pair-IsValid 5
        50)
      two_pairs put_two

multimap_get_all_data-held_example :
    (out : List (ℕ × ℕ)) × (get_all_data boost 0 equals d hash client_handle two_pairs
      ≡ some (two_pairs, out))
    × ((j : ℕ) → assoc same j out ≡ held boost 0 equals d rpclib hash client_handle two_pairs j)
    × Perm out ((3, 30) ∷ (5, 50) ∷ [])
unfolding collect construct
multimap_get_all_data-held_example =
    multimap_get_all_data-held boost 0 equals d rpclib hash client_handle two_pairs
      two_pairs-IsValid

-- A key contains those with the same tens.
abbrev tens : ℕ → ℕ → Bool
tens a b = a / 10 == b / 10

lower_tens : (x : ℕ) → ltb x 50 ≡ true → (tens 50 x || tens x 50) ≡ false
lower_tens x lt = ground arith

higher_tens :
    (x y : ℕ)
    → ltb x 50 ≡ false
    → ltb x y ≡ true
    → (tens 50 x || tens x 50) ≡ false
    → (tens 50 y || tens y 50) ≡ false
higher_tens x y above lt apart = ground arith

multimap_local_contains-keep_example :
    (local_contains_in_server boost 0 tens 50 ((30, 1) ∷ (50, 2) ∷ (57, 3) ∷ (63, 4) ∷ [])).1
    ≡ (50, 2) ∷ (57, 3) ∷ []
multimap_local_contains-keep_example =
    multimap_local_contains-keep boost 0 tens 50 ((30, 1) ∷ (50, 2) ∷ (57, 3) ∷ (63, 4) ∷ [])
      ((refl, (refl, (refl, tt))), ((refl, (refl, tt)), ((refl, tt), (tt, tt)))) (omega arith)
      lower_tens higher_tens
