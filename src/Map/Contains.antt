-- ===== src/Map/Contains.antt =====
-- `LocalContainsInServer` of `basket::map`: the pairs of one server with a key in a range.
use basket.Prelude.{
  ℕ, ◌≡◌, ◌≢◌, refl, ap, ◌∙◌, if◌then◌else◌, ◌==◌, arith, List, [], ◌∷◌, length, Bool-cases, inl,
  inr,
}
use mathlib.Core.List.{Perm}
use basket.Prelude.{some}
use basket.Rpc.Names.{Dispatcher}
use basket.Rpc.Cluster.{Handle, Handler, Node, RpcImplementation}
use basket.Rpc.Serve.{Everywhere}
use basket.Rpc.Gather.{collect}
use basket.Rpc.Wire.{Args, Reply}
use basket.Map.Remote.{IsValid, map_contains-perm}
use basket.Container.Order.{Order, ◌<?◌}
use basket.Container.Entries.{IsSorted}
use basket.Container.Range.{between, scan-between}
use basket.Container.Collect.{collect-keep}
use basket.Map.Defs.{MyMap, first, contains, local_contains_in_server, only}

pub length_zero {ℓ} : {A : Type ℓ} (xs : List A) → length xs ≡ 0 → xs ≡ []
length_zero [] h = refl
length_zero (x ∷ xs) h = absurd (omega arith)

module _ {K V : Type 0} ⦃o : Order K⦄ (boost : MyMap K V) (mapped : V) (start end : K) where
  open boost use {T, elements}

  -- On a server whose keys ascend, and that does not hold exactly one pair,
  -- `LocalContainsInServer` returns exactly the pairs with a key from `key_start` to `key_end`,
  -- both included, in ascending order.
  pub map_local_contains-between :
      (m : T)
      → IsSorted first (elements m)
      → length (elements m) ≢ 1
      → (local_contains_in_server boost mapped start end m).1 ≡ between first start end (elements m)
  unfolding local_contains_in_server
  map_local_contains-between m s many =
      let size = boost.size-length m in
      let found = scan-between first start end (elements m) s in
      elim (Bool-cases (boost.size m == 0)) [
        | inl empty ↦
            let none_left : elements m ≡ [] = length_zero (elements m) (ground arith) in
            rw (empty, none_left)
        | inr _ ↦ ground (arith, size, boost.lower_bound_of_lem start m, found)
      ]

  -- On a server that holds a single pair, it returns that pair exactly if the key is greater than
  -- `key_start`, whatever `key_end` is.
  pub map_local_contains-single :
      (m : T) (k : K) (v : V)
      → elements m ≡ (k, v) ∷ []
      → (local_contains_in_server boost mapped start end m).1
        ≡ (if start <? k then (k, v) ∷ [] else [])
  unfolding local_contains_in_server only
  map_local_contains-single m k v e = let size = boost.size-length m ∙ ap length e in rw (size, e)

module _ {K V : Type 0} ⦃o : Order K⦄ (boost : MyMap K V) (mapped : V)
    (d : Dispatcher (Handler boost.T (Args K V) (Reply K V))) (impl : RpcImplementation)
    (key_hash : K → ℕ) (h : Handle) (nodes : List (Node d)) where
  -- On valid servers none of which holds exactly one pair, `Contains` succeeds from every caller,
  -- changes nothing, and returns exactly the pairs of all servers with a key from `key_start` to
  -- `key_end`, each as often, in some order.
  pub map_contains-between :
      IsValid boost mapped d impl key_hash h nodes
      → Everywhere d (λ m. length (boost.elements m) ≢ 1) nodes
      → (s e : K)
      → (out : List (K × V)) × (contains boost mapped d key_hash h s e nodes ≡ some (nodes, out))
        × Perm out (between first s e (collect d boost.elements nodes))
  map_contains-between valid many s e =
      let (out, run, perm) = map_contains-perm boost mapped d impl key_hash h nodes valid s e in
      let found : collect d (λ m. (local_contains_in_server boost mapped s e m).1) nodes
          ≡ between first s e (collect d boost.elements nodes) =
        collect-keep d _ boost.elements _ nodes (λ i node at.
          map_local_contains-between boost mapped s e node.segment (valid.valid i node at)
            (many i node at)) in
      (out, run, rw found at perm)
