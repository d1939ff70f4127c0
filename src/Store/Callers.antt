-- ===== src/Store/Callers.antt =====
-- Several callers of one container, each on its own node: their operations one after the other, in any
-- order, against one finite map.
use mathlib.Core.Path.{fun_ext}
use basket.Prelude.{
  ℕ, ◌<◌, ◌≡◌, refl, ap, ◌∙◌, Bool, true, List, [], ◌∷◌, Option, none, some, map, is_some, All,
  ◌>>=◌,
}
use basket.Rpc.Names.{Name, Dispatcher}
use basket.Rpc.Cluster.{Handle, Handler, Node}
use basket.Rpc.Serve.{IsServing}
use basket.Store.Contract.{LocalStore, pair_of, update}
use basket.Store.Servers.{IsValid, held, Becomes}

-- Where a caller is: whether it is a server, which server it counts as its own, and whether that one is
-- on its node.
pub record Caller : Type 0 where
  pub is_server : Bool
  pub my_server : ℕ
  pub server_on_node : Bool

-- The object of a caller.
abbrev pub handle_of : Handle → Caller → Handle
handle_of h c = record h {
  is_server = c.is_server;
  my_server = c.my_server;
  server_on_node = c.server_on_node;
}

pub data Op (K V : Type 0) : Type 0 where
  putting : K → V → Op K V
  getting : K → Op K V
  erasing : K → Op K V

pub data Result (V : Type 0) : Type 0 where
  a_flag : Bool → Result V
  a_pair : Bool × V → Result V

-- A call, with its result as one of several.
abbrev pub with_result {ℓ} :
    {N : Type ℓ} {V B : Type 0} → (B → Result V) → Option (N × B) → Option (N × Result V)
with_result result r = r >>= λ x. some (x.0, result x.1)

module _ {K V : Type 0} (equal : K → K → Bool) (mapped : V) where
  -- What an operation does to a finite map, and what it returns.
  abbrev pub effect : Op K V → (K → Option V) → K → Option V
  effect (putting k v) f = update equal f k (some v)
  effect (getting k) f = f
  effect (erasing k) f = update equal f k none

  abbrev pub returned : Op K V → (K → Option V) → Result V
  returned (putting k v) f = a_flag true
  returned (getting k) f = a_pair (pair_of mapped (f k))
  returned (erasing k) f = a_pair (is_some (f k), mapped)

  abbrev pub effects : List (Op K V) → (K → Option V) → K → Option V
  effects [] f = f
  effects (op ∷ ops) f = effects ops (effect op f)

  abbrev pub all_returned : List (Op K V) → (K → Option V) → List (Result V)
  all_returned [] f = []
  all_returned (op ∷ ops) f = returned op f ∷ all_returned ops (effect op f)

-- Servers that have their functions for one caller have them for another.
pub IsServing-handle_of :
    {S Args Reply : Type 0} (d : Dispatcher (Handler S Args Reply))
    (bindings : List (Name × Handler S Args Reply)) (h : Handle) (c : Caller)
    (nodes : List (Node d))
    → c.my_server < h.num_servers
    → IsServing d bindings h nodes
    → IsServing d bindings (handle_of h c) nodes
IsServing-handle_of d bindings h c nodes home ready = record {
  width = ready.width;
  home = home;
  fits = ready.fits;
  serves = ready.serves;
}

module _ {S K V Args Reply : Type 0} (store : LocalStore S K V)
    (d : Dispatcher (Handler S Args Reply)) (bindings : List (Name × Handler S Args Reply))
    (h : Handle) (owner : K → ℕ) where
  open store use {equal, mapped}

  -- Servers that are valid for one caller are so for another.
  pub IsValid-handle_of :
      (c : Caller) (nodes : List (Node d))
      → c.my_server < h.num_servers
      → IsValid store d bindings h owner nodes
      → IsValid store d bindings (handle_of h c) owner nodes
  IsValid-handle_of c nodes home ok = record {
    serving = IsServing-handle_of d bindings h c nodes home ok.serving;
    valid = ok.valid;
    placed = ok.placed;
  }

  -- And what a caller's operation leads to does not depend on the caller.
  pub Becomes-handle_of :
      {B : Type 0} (c : Caller) (result : B → Result V) (r : Option (List (Node d) × B)) (b : B)
      (f : K → Option V)
      → h.my_server < h.num_servers
      → Becomes store d bindings (handle_of h c) owner r b f
      → Becomes store d bindings h owner (with_result result r) (result b) f
  Becomes-handle_of c result r b f home (nodes, ran, ok, holds) = (
    nodes,
    rw ran refl,
    record {
      serving = record {
        width = ok.serving.width;
        home = home;
        fits = ok.serving.fits;
        serves = ok.serving.serves;
      };
      valid = ok.valid;
      placed = ok.placed;
    },
    holds,
  )

  -- The three operations, for each caller.
  module _ (put : Caller → K → V → List (Node d) → Option (List (Node d) × Bool))
      (get erase : Caller → K → List (Node d) → Option (List (Node d) × (Bool × V))) where
    abbrev pub perform : Caller → Op K V → List (Node d) → Option (List (Node d) × Result V)
    perform c (putting k v) nodes = with_result a_flag (put c k v nodes)
    perform c (getting k) nodes = with_result a_pair (get c k nodes)
    perform c (erasing k) nodes = with_result a_pair (erase c k nodes)

    -- The calls in the order in which they run.
    abbrev pub run :
        List (Caller × Op K V) → List (Node d) → Option (List (Node d) × List (Result V))
    run [] nodes = some (nodes, [])
    run (c ∷ calls) nodes =
        perform c.0 c.1 nodes >>= λ r. run calls r.0 >>= λ rs. some (rs.0, r.1 ∷ rs.1)

    module _
        (puts : (c : Caller) (nodes : List (Node d))
          → IsValid store d bindings (handle_of h c) owner nodes
          → (k : K) (v : V)
          → Becomes store d bindings
              (handle_of h c)
              owner
              (put c k v nodes)
              true
              (update equal (held store d bindings h owner nodes) k (some v)))
        (gets : (c : Caller) (nodes : List (Node d))
          → IsValid store d bindings (handle_of h c) owner nodes
          → (k : K)
          → get c k nodes ≡ some (nodes, pair_of mapped (held store d bindings h owner nodes k)))
        (erases : (c : Caller) (nodes : List (Node d))
          → IsValid store d bindings (handle_of h c) owner nodes
          → (k : K)
          → Becomes store d bindings
              (handle_of h c)
              owner
              (erase c k nodes)
              (is_some (held store d bindings h owner nodes k), mapped)
              (update equal (held store d bindings h owner nodes) k none)) where
      performs :
          (c : Caller) (op : Op K V) (nodes : List (Node d))
          → c.my_server < h.num_servers
          → IsValid store d bindings h owner nodes
          → Becomes store d bindings h owner
              (perform c op nodes)
              (returned equal mapped op (held store d bindings h owner nodes))
              (effect equal mapped op (held store d bindings h owner nodes))
      performs c (putting k v) nodes home ok =
          Becomes-handle_of c a_flag _ true _ ok.serving.home
            (puts c nodes (IsValid-handle_of c nodes home ok) k v)
      performs c (getting k) nodes home ok =
          let ok' = IsValid-handle_of c nodes home ok in
          Becomes-handle_of c a_pair _ _ _ ok.serving.home
            (nodes, gets c nodes ok' k, ok', λ j. refl)
      performs c (erasing k) nodes home ok =
          Becomes-handle_of c a_pair _ _ _ ok.serving.home
            (erases c nodes (IsValid-handle_of c nodes home ok) k)

      -- If each operation leads to what it does to a finite map, a sequence of them does.
      pub run-Becomes :
          (calls : List (Caller × Op K V)) (nodes : List (Node d))
          → All (λ c. c.0.my_server < h.num_servers) calls
          → IsValid store d bindings h owner nodes
          → Becomes store d bindings h owner
              (run calls nodes)
              (all_returned equal mapped
                (map (λ c. c.1) calls)
                (held store d bindings h owner nodes))
              (effects equal mapped (map (λ c. c.1) calls) (held store d bindings h owner nodes))
      run-Becomes [] nodes homes ok = (nodes, refl, ok, λ j. refl)
      run-Becomes ((c, op) ∷ calls) nodes homes ok =
          let f = held store d bindings h owner nodes in
          let ops = map (λ c. c.1) calls in
          let (between, first, ok', holds) = performs c op nodes homes.0 ok in
          let same : held store d bindings h owner between ≡ effect equal mapped op f =
            fun_ext holds in
          let (after, rest, ok'', holds') = run-Becomes calls between homes.1 ok' in
          (
            after,
            rw (first, rest)
                (ap
                  (λ g. some (after, returned equal mapped op f ∷ all_returned equal mapped ops g))
                  same),
            ok'',
            λ j. holds' j ∙ ap (λ g. effects equal mapped ops g j) same,
          )
