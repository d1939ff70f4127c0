-- ===== src/Store/Start.antt =====
-- The servers as their constructors leave them.
use basket.Prelude.{
  ℕ, ◌<◌, ◌≤◌, ◌^◌, ◌≡◌, ap, sym, ◌∙◌, List, ◌++◌, none, some, get_elem?, length, subst,
  Option-cases, inl, inr,
}
use basket.Rpc.Names.{Name, Dispatcher, Distinct, lookup_name, bind_all, function-bind_all}
use basket.Rpc.Cluster.{Handle, Handler, Node}
use basket.Rpc.Serve.{IsServing, Everywhere}
use basket.Store.Contract.{LocalStore}
use basket.Store.Servers.{IsValid, held, read}

module _ {S Args Reply : Type 0} (d : Dispatcher (Handler S Args Reply))
    (bindings : List (Name × Handler S Args Reply)) (func_prefix : Name) where
  -- No function is bound under a name of the container.
  abbrev pub IsFree : d.Table → Type 0
  IsFree t =
      (n : Name) (f : Handler S Args Reply)
      → lookup_name n bindings ≡ some f
      → d.function (func_prefix ++ n) t ≡ none

  -- What a constructor leaves behind.
  abbrev pub Starts : S → Node d → Type 0
  Starts s node =
      (t : d.Table) × IsFree t
      × (node ≡ record { segment = s; functions = bind_all d func_prefix bindings t })

  pub Starts-segment : {s : S} {node : Node d} → Starts s node → node.segment ≡ s
  Starts-segment starts = ap (λ n. n.segment) starts.2

  Starts-serves :
      {s : S} (node : Node d)
      → Distinct bindings
      → Starts s node
      → (n : Name) (f : Handler S Args Reply) → lookup_name n bindings ≡ some f
      → d.function (func_prefix ++ n) node.functions ≡ some f
  Starts-serves node distinct (t, free, e) n f bound =
      ap (λ x. d.function (func_prefix ++ n) x.functions) e
      ∙ function-bind_all d func_prefix bindings t distinct free n f bound

module _ {S Args Reply : Type 0} (d : Dispatcher (Handler S Args Reply))
    (bindings : List (Name × Handler S Args Reply)) (h : Handle) (empty : S) (nodes : List (Node d))
    (width : length nodes ≡ h.num_servers) (home : h.my_server < h.num_servers)
    (fits : h.num_servers ≤ 2 ^ 16) (distinct : Distinct bindings)
    (starts : (i : ℕ) (node : Node d)
      → get_elem? nodes i ≡ some node
      → Starts d bindings h.func_prefix empty node) where
  -- Servers that were all constructed under one name, with distinct function names, serve.
  pub Starts-IsServing : IsServing d bindings h nodes
  Starts-IsServing = record {
    width = width;
    home = home;
    fits = fits;
    serves = λ i node at. Starts-serves d bindings h.func_prefix node distinct (starts i node at);
  }

  -- Their segments are as they were constructed.
  pub Starts-Everywhere : (P : S → Type 0) → P empty → Everywhere d P nodes
  Starts-Everywhere P p i node at =
      subst P (sym (Starts-segment d bindings h.func_prefix (starts i node at))) p

  -- A key-value container is valid, and holds nothing.
  pub Starts-IsValid :
      {K V : Type 0} (store : LocalStore S K V) (owner : K → ℕ)
      → store.IsValid empty
      → ((j : K) → store.view empty j ≡ none)
      → IsValid store d bindings h owner nodes
        × ((j : K) → held store d bindings h owner nodes j ≡ none)
  Starts-IsValid store owner valid nothing =
      let views = Starts-Everywhere (λ s. (j : _) → store.view s j ≡ none) nothing in
      (
        record {
          serving = Starts-IsServing;
          valid = Starts-Everywhere store.IsValid valid;
          placed = λ i node at j _. views i node at j;
        },
        λ j. elim (Option-cases (get_elem? nodes (owner j))) [
          | inl e ↦ ap (λ o. read store d bindings h owner o j) e
          | inr (node, e) ↦ ap (λ o. read store d bindings h owner o j) e ∙ views (owner j) node e j
        ],
      )
