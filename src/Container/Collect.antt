-- ===== src/Container/Collect.antt =====
-- Filtering what all servers hold.
use basket.Prelude.{suc, ◌≡◌, refl, ap, sym, Bool, List, [], ◌∷◌, ◌++◌, Bool-cases, inl, inr}
use basket.Rpc.Names.{Dispatcher}
use basket.Rpc.Cluster.{Handler, Node}
use basket.Rpc.Serve.{Everywhere}
use basket.Rpc.Gather.{collect}
use basket.Container.Range.{keep}

keep-append {ℓ} :
    {E : Type ℓ} (p : E → Bool) (xs ys : List E) → keep p (xs ++ ys) ≡ keep p xs ++ keep p ys
keep-append p [] ys = refl
keep-append p (x ∷ xs) ys = elim (Bool-cases (p x)) [
  | inl passes ↦ rw passes (ap (λ l. x ∷ l) (keep-append p xs ys))
  | inr fails ↦ rw fails (keep-append p xs ys)
]

module _ {S Args Reply E : Type 0} (d : Dispatcher (Handler S Args Reply)) (p : E → Bool)
    (all found : S → List E) where
  -- Where each segment gives what passes a test, the servers together do.
  pub collect-keep :
      (nodes : List (Node d))
      → Everywhere d (λ s. found s ≡ keep p (all s)) nodes
      → collect d found nodes ≡ keep p (collect d all nodes)
  unfolding collect
  collect-keep [] h = refl
  collect-keep (node ∷ nodes) h =
      rw (h 0 node refl, collect-keep nodes (λ i. h (suc i)))
        (sym (keep-append p (all node.segment) (collect d all nodes)))
