-- ===== src/Tests/SetRuns.antt =====
-- `basket::set` on two servers.
use basket.Prelude.{
  map, false, ℕ, ◌≡◌, refl, true, arith, List, [], ◌∷◌, none, some, codes, length, ◌≢◌, get_elem?,
  set, drop,
}
use mathlib.Core.List.{Perm}
use basket.Container.Order.{same}
use basket.Container.Entries.{assign}
use basket.Container.Boost.{list_tree}
use basket.Rpc.Names.{Dispatcher, bind_all}
use basket.Rpc.Cluster.{Handler, Node, call, remote, rpclib}
use basket.Rpc.Gather.{collect}
use basket.Rpc.Hashing.{key_int}
use basket.Rpc.Wire.{Args, Reply}
use basket.Set.Defs.{
  MySet, itself, pop_first, local_seek_first_n, local_put, put_func, bindings, construct, put,
  contains,
}
use basket.Set.Remote.{IsValid, held, Becomes, set_put-Becomes, set_construct-IsValid}
use basket.Set.Contains.{set_contains-between}
use basket.Set.First.{first_of, pop_first-on_server, seek_first_n-take}
use basket.Set.Callers.{run, set-run-Becomes}
use basket.Store.{Caller, Op, putting, getting, erasing, a_flag, a_pair, effects}
use basket.Tests.Base.{
  client, a_server, nat_order, list_dispatcher, client_handle, hash, settled, each,
}

abbrev boost : MySet ℕ
boost = list_tree itself (assign itself)

abbrev d : Dispatcher (Handler boost.T (Args ℕ ℕ) (Reply ℕ ℕ))
d = list_dispatcher (Handler boost.T (Args ℕ ℕ) (Reply ℕ ℕ))

-- A server that has run the constructor.
abbrev fresh : Node d
fresh = construct boost 0 d rpclib (codes "TEST") []

abbrev servers : List (Node d)
servers = fresh ∷ fresh ∷ []

-- The client has put 3, which belongs to server 1.
abbrev one_key : List (Node d)
one_key = fresh ∷ record fresh { segment = 3 ∷ [] } ∷ []

-- And 5.
abbrev two_keys : List (Node d)
two_keys = fresh ∷ record fresh { segment = 3 ∷ 5 ∷ [] } ∷ []

abbrev key_calls : List (Caller × Op ℕ (Unit {0}))
key_calls =
    (client, putting 3 tt)
    ∷ (a_server, getting 3)
    ∷ (a_server, erasing 3)
    ∷ (client, getting 3)
    ∷ []

constructed :
    IsValid boost 0 d rpclib hash client_handle servers
    × ((k : ℕ) → held boost 0 d rpclib hash client_handle servers k ≡ none)
constructed =
    set_construct-IsValid boost 0 d rpclib hash client_handle servers refl (omega arith)
      (omega arith)
      (λ i node at.
        ([], (λ n f _. refl), each (λ n. n ≡ fresh) servers (refl, (refl, tt)) i node at))

set-run-Becomes_example :
    Becomes boost 0 d rpclib hash client_handle servers
      (run boost 0 d rpclib hash client_handle key_calls servers)
      (a_flag true ∷ a_pair (true, tt) ∷ a_pair (true, tt) ∷ a_pair (false, tt) ∷ [])
      (effects same tt
        (map (λ c. c.1) key_calls)
        (held boost 0 d rpclib hash client_handle servers))
set-run-Becomes_example =
    set-run-Becomes boost 0 d rpclib hash client_handle key_calls servers
      (omega arith, (omega arith, (omega arith, (omega arith, tt)))) constructed.0

put_one : put boost 0 d hash client_handle 3 servers ≡ some (one_key, true)
unfolding put remote call construct bindings bind_all key_int put_func local_put assign
put_one = refl

put_two : put boost 0 d hash client_handle 5 one_key ≡ some (two_keys, true)
unfolding put remote call construct bindings bind_all key_int put_func local_put assign
put_two = refl

one_key-IsValid : IsValid boost 0 d rpclib hash client_handle one_key
one_key-IsValid =
    settled (set_put-Becomes boost 0 d rpclib hash client_handle servers constructed.0 3) one_key
      put_one

two_keys-IsValid : IsValid boost 0 d rpclib hash client_handle two_keys
two_keys-IsValid =
    settled (set_put-Becomes boost 0 d rpclib hash client_handle one_key one_key-IsValid 5) two_keys
      put_two

set_contains-between_example :
    (out : List ℕ) × (contains boost 0 d client_handle 4 6 two_keys ≡ some (two_keys, out))
    × Perm out (5 ∷ [])
unfolding collect construct
set_contains-between_example =
    set_contains-between boost 0 d rpclib hash client_handle two_keys two_keys-IsValid
      (each (λ n. length n.segment ≢ 1) two_keys
        ((λ e. omega (arith, e)), ((λ e. omega (arith, e)), tt)))
      4 6

seek_first_n-take_example :
    local_seek_first_n boost 0 2 (3 ∷ 5 ∷ 8 ∷ []) ≡ (3 ∷ 5 ∷ 8 ∷ [], (true, 3 ∷ 5 ∷ []))
seek_first_n-take_example = seek_first_n-take boost 0 2 (3 ∷ 5 ∷ 8 ∷ [])

pop_first-on_server_example :
    (node : Node d) × (s : List ℕ) × (get_elem? two_keys 1 ≡ some node)
    × (pop_first boost 0 d client_handle 1 two_keys
        ≡ some (set two_keys 1 (record node { segment = s }), first_of boost 0 node.segment))
    × (s ≡ drop 1 node.segment)
pop_first-on_server_example =
    pop_first-on_server boost 0 d rpclib client_handle two_keys two_keys-IsValid.serving 1
      (omega arith)
