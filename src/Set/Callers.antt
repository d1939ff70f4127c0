-- ===== src/Set/Callers.antt =====
-- Several callers of a `basket::set`.
use basket.Prelude.{
  ℕ, ◌<◌, ◌≡◌, refl, ap, ◌∙◌, Bool, List, [], Option, none, some, map, All, is_some, ◌>>=◌,
}
use basket.Container.Order.{Order, same}
use basket.Rpc.Names.{Dispatcher}
use basket.Rpc.Cluster.{Handle, Handler, Node, RpcImplementation}
use basket.Rpc.Wire.{Args, Reply}
use basket.Store
use basket.Store.{Caller, handle_of, Op, Result, effects, all_returned, pair_of}
use basket.Set.Defs.{MySet, bindings, put, get, erase}
use basket.Set.Member.{set_store}
use basket.Set.Remote.{
  owner, IsValid, held, Becomes, set_put-Becomes, set_get-held, set_erase-Becomes,
}

-- A flag as the answer of a store whose values say nothing.
abbrev pub flag_only {ℓ} : {N : Type ℓ} → Option (N × Bool) → Option (N × (Bool × Unit {0}))
flag_only r = r >>= λ x. some (x.0, (x.1, tt))

pair_of-is_some : (o : Option {0} Unit) → (is_some o, tt) ≡ pair_of tt o
pair_of-is_some none = refl
pair_of-is_some (some tt) = refl

module _ {K : Type 0} ⦃o : Order K⦄ (boost : MySet K) (fallback : K)
    (d : Dispatcher (Handler boost.T (Args K K) (Reply K K))) (impl : RpcImplementation)
    (key_hash : K → ℕ) (h : Handle) where
  -- The calls of several callers, in the order in which they run.
  abbrev pub run :
      List (Caller × Op K (Unit {0}))
      → List (Node d)
      → Option (List (Node d) × List (Result (Unit {0})))
  run =
      Store.run (set_store boost fallback) d (bindings boost fallback impl) h
        (owner boost fallback d impl key_hash h [])
        (λ c k _. put boost fallback d key_hash (handle_of h c) k)
        (λ c k nodes. flag_only (get boost fallback d key_hash (handle_of h c) k nodes))
        (λ c k nodes. flag_only (erase boost fallback d key_hash (handle_of h c) k nodes))

  -- Any sequence of `Put`, `Get` and `Erase` calls, of callers on any nodes that count any of the
  -- servers as their own, succeeds on valid servers. It returns what the same operations return on
  -- one finite set that starts with what the servers hold, and leaves the servers valid, holding
  -- what that set then has.
  pub set-run-Becomes :
      (calls : List (Caller × Op K (Unit {0}))) (nodes : List (Node d))
      → All (λ c. c.0.my_server < h.num_servers) calls
      → IsValid boost fallback d impl key_hash h nodes
      → Becomes boost fallback d impl key_hash h nodes
          (run calls nodes)
          (all_returned same tt
            (map (λ c. c.1) calls)
            (held boost fallback d impl key_hash h nodes))
          (effects same tt (map (λ c. c.1) calls) (held boost fallback d impl key_hash h nodes))
  set-run-Becomes calls nodes homes ok =
      Store.run-Becomes (set_store boost fallback) d (bindings boost fallback impl) h
        (owner boost fallback d impl key_hash h [])
        (λ c k _. put boost fallback d key_hash (handle_of h c) k)
        (λ c k nodes. flag_only (get boost fallback d key_hash (handle_of h c) k nodes))
        (λ c k nodes. flag_only (erase boost fallback d key_hash (handle_of h c) k nodes))
        (λ c between ready k _.
          set_put-Becomes boost fallback d impl key_hash (handle_of h c) between ready k)
        (λ c between ready k.
          ap flag_only (set_get-held boost fallback d impl key_hash (handle_of h c) between ready k)
          ∙ ap (λ x. some (between, x))
              (pair_of-is_some (held boost fallback d impl key_hash h between k)))
        (λ c between ready k.
          let (after, ran, ready', holds) =
            set_erase-Becomes boost fallback d impl key_hash (handle_of h c) between ready k in
          (after, ap flag_only ran, ready', holds))
        calls nodes homes ok
