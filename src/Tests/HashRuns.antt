-- ===== src/Tests/HashRuns.antt =====
-- `basket::unordered_map` on two servers.
use basket.Prelude.{map, ℕ, ◌≡◌, refl, true, arith, List, [], ◌∷◌, none, some, codes, ◌↔◌, ◌^◌, ◌%◌}
use mathlib.Core.List.{Perm}
use basket.Rpc.Gather.{collect}
use basket.Container.Hashed.{HashMap, list_map, without}
use basket.Rpc.Names.{Dispatcher, bind_all}
use basket.Rpc.Cluster.{Handle, Handler, Node, call, remote, rpclib}
use basket.Rpc.Hashing.{key_int}
use basket.Rpc.Wire.{Args, Reply}
use basket.Store.{effects, pair_of, assoc}
use basket.UnorderedMap.Defs.{
  put_key_int, local_put, put_func, bindings, construct, put, get, get_all_data,
}
use basket.UnorderedMap.Remote.{
  IsValid, held, Becomes, unordered_map_put-Becomes, unordered_map_construct-IsValid, put_lost,
  unordered_map_get_all_data-held,
}
use basket.UnorderedMap.Owner.{put_key_int_iff}
use basket.UnorderedMap.Callers.{run, unordered_map-run-Becomes}
use basket.Tests.Base.{calls, results, nat_key, list_dispatcher, client_handle, hash, settled, each}

abbrev pub boost : HashMap ℕ nat_key
boost = list_map nat_key

abbrev pub d : Dispatcher (Handler boost.T (Args ℕ ℕ) (Reply ℕ ℕ))
d = list_dispatcher (Handler boost.T (Args ℕ ℕ) (Reply ℕ ℕ))

-- A server that has run the constructor.
abbrev fresh : Node d
fresh = construct boost 0 d rpclib (codes "TEST") []

abbrev servers : List (Node d)
servers = fresh ∷ fresh ∷ []

-- The client has put 30 under 3, which belongs to server 1.
abbrev one_pair : List (Node d)
one_pair = fresh ∷ record fresh { segment = (3, 30) ∷ [] } ∷ []

-- And 50 under 5.
abbrev two_pairs : List (Node d)
two_pairs = fresh ∷ record fresh { segment = (5, 50) ∷ (3, 30) ∷ [] } ∷ []

constructed :
    IsValid boost 0 d rpclib hash client_handle servers
    × ((k : ℕ) → held boost 0 d rpclib hash client_handle servers k ≡ none)
constructed =
    unordered_map_construct-IsValid boost 0 d rpclib hash client_handle servers refl (omega arith)
      (omega arith)
      (λ i node at.
        ([], (λ n f _. refl), each (λ n. n ≡ fresh) servers (refl, (refl, tt)) i node at))

unordered_map-run-Becomes_example :
    Becomes boost 0 d rpclib hash client_handle servers
      (run boost 0 d rpclib hash client_handle calls servers)
      results
      (effects nat_key.equal 0
        (map (λ c. c.1) calls)
        (held boost 0 d rpclib hash client_handle servers))
unordered_map-run-Becomes_example =
    unordered_map-run-Becomes boost 0 d rpclib hash client_handle calls servers refl
      (omega arith, (omega arith, (omega arith, (omega arith, tt)))) constructed.0

put_one : put boost 0 d hash client_handle 3 30 servers ≡ some (one_pair, true)
unfolding put remote call construct bindings bind_all put_key_int put_func local_put without
put_one = refl

put_two : put boost 0 d hash client_handle 5 50 one_pair ≡ some (two_pairs, true)
unfolding put remote call construct bindings bind_all put_key_int put_func local_put without
put_two = refl

one_pair-IsValid : IsValid boost 0 d rpclib hash client_handle one_pair
unfolding put_key_int key_int
one_pair-IsValid =
    settled
      (unordered_map_put-Becomes boost 0 d rpclib hash client_handle servers constructed.0 3 30
        refl)
      one_pair put_one

two_pairs-IsValid : IsValid boost 0 d rpclib hash client_handle two_pairs
unfolding put_key_int key_int
two_pairs-IsValid =
    settled
      (unordered_map_put-Becomes boost 0 d rpclib hash client_handle one_pair one_pair-IsValid 5 50
        refl)
      two_pairs put_two

unordered_map_get_all_data-held_example :
    (out : List (ℕ × ℕ)) × (get_all_data boost 0 d hash client_handle two_pairs
      ≡ some (two_pairs, out))
    × ((j : ℕ) → assoc nat_key.equal j out ≡ held boost 0 d rpclib hash client_handle two_pairs j)
    × Perm out ((5, 50) ∷ (3, 30) ∷ [])
unfolding collect construct
unordered_map_get_all_data-held_example =
    unordered_map_get_all_data-held boost 0 d rpclib hash client_handle two_pairs two_pairs-IsValid

-- A client of three servers: for the hash 65536, `Put` goes to server 0 and `Get` to server 1.
abbrev three_handle : Handle
three_handle = record client_handle { num_servers = 3 }

abbrev three : List (Node d)
three = fresh ∷ fresh ∷ fresh ∷ []

three-IsValid : IsValid boost 0 d rpclib hash three_handle three
three-IsValid =
    (unordered_map_construct-IsValid boost 0 d rpclib hash three_handle three refl (omega arith)
      (omega arith)
      (λ i node at.
        ([], (λ n f _. refl), each (λ n. n ≡ fresh) three (refl, (refl, (refl, tt))) i node at))).0

put_lost_example :
    (after : List (Node d)) × (put boost 0 d hash three_handle 65536 7 three ≡ some (after, true))
    × (get boost 0 d hash three_handle 65536 after
        ≡ some (after, pair_of 0 (held boost 0 d rpclib hash three_handle three 65536)))
unfolding put_key_int key_int
put_lost_example = put_lost boost 0 d rpclib hash three_handle three three-IsValid 65536 7 refl

put_key_int_iff_example :
    ((key_hash : ℕ) → put_key_int key_hash 3 ≡ key_int key_hash 3) ↔ (2 ^ 16 % 3 ≡ 0)
put_key_int_iff_example = put_key_int_iff 3 (omega arith) (omega arith)
