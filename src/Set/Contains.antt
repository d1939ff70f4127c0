-- ===== src/Set/Contains.antt =====
-- `LocalContainsInServer` of `basket::set`: the keys of one server in a range.
use basket.Prelude.{
  ℕ, ◌≡◌, ◌≢◌, ap, ◌∙◌, if◌then◌else◌, ◌==◌, arith, List, [], ◌∷◌, length, Bool-cases, inl, inr,
}
use mathlib.Core.List.{Perm}
use basket.Prelude.{some}
use basket.Rpc.Names.{Dispatcher}
use basket.Rpc.Cluster.{Handle, Handler, Node, RpcImplementation}
use basket.Rpc.Serve.{Everywhere}
use basket.Rpc.Gather.{collect}
use basket.Rpc.Wire.{Args, Reply}
use basket.Map.Contains.{length_zero}
use basket.Set.Remote.{IsValid, set_contains-perm}
use basket.Container.Order.{Order, ◌<?◌}
use basket.Container.Entries.{IsSorted}
use basket.Container.Range.{between, scan-between}
use basket.Container.Collect.{collect-keep}
use basket.Set.Defs.{MySet, itself, contains, local_contains_in_server, only}

module _ {K : Type 0} ⦃o : Order K⦄ (boost : MySet K) (fallback : K) (start end : K) where
  open boost use {T, elements}

  -- On a server that holds no key, or at least two, `LocalContainsInServer` returns exactly the
  -- keys from `key_start` to `key_end`, both included, in ascending order.
  pub set_local_contains-between :
      (m : T)
      → IsSorted itself (elements m)
      → length (elements m) ≢ 1
      → (local_contains_in_server boost fallback start end m).1
        ≡ between itself start end (elements m)
  unfolding local_contains_in_server
  set_local_contains-between m s many =
      let size = boost.size-length m in
      let found = scan-between itself start end (elements m) s in
      elim (Bool-cases (boost.size m == 0)) [
        | inl empty ↦
            let none_left : elements m ≡ [] = length_zero (elements m) (ground arith) in
            rw (empty, none_left)
        | inr _ ↦ ground (arith, size, boost.lower_bound_of_lem start m, found)
      ]

  -- On a server that holds a single key, it returns that key exactly if it is not less than
  -- `key_start`, whatever `key_end` is.
  pub set_local_contains-single :
      (m : T) (k : K)
      → elements m ≡ k ∷ []
      → (local_contains_in_server boost fallback start end m).1
        ≡ (if k <? start then [] else k ∷ [])
  unfolding local_contains_in_server only
  set_local_contains-single m k e = let size = boost.size-length m ∙ ap length e in rw (size, e)

module _ {K : Type 0} ⦃o : Order K⦄ (boost : MySet K) (fallback : K)
    (d : Dispatcher (Handler boost.T (Args K K) (Reply K K))) (impl : RpcImplementation)
    (key_hash : K → ℕ) (h : Handle) (nodes : List (Node d)) where
  -- On valid servers none of which holds exactly one key, `Contains` succeeds from every caller,
  -- changes nothing, and returns exactly the keys of all servers from `key_start` to `key_end`,
  -- each as often, in some order.
  pub set_contains-between :
      IsValid boost fallback d impl key_hash h nodes
      → Everywhere d (λ m. length (boost.elements m) ≢ 1) nodes
      → (s e : K)
      → (out : List K) × (contains boost fallback d h s e nodes ≡ some (nodes, out))
        × Perm out (between itself s e (collect d boost.elements nodes))
  set_contains-between valid many s e =
      let (out, run, perm) = set_contains-perm boost fallback d impl key_hash h nodes valid s e in
      let found : collect d (λ m. (local_contains_in_server boost fallback s e m).1) nodes
          ≡ between itself s e (collect d boost.elements nodes) =
        collect-keep d _ boost.elements _ nodes (λ i node at.
          set_local_contains-between boost fallback s e node.segment (valid.valid i node at)
            (many i node at)) in
      (out, run, rw found at perm)
