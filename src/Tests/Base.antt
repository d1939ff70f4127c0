-- ===== src/Tests/Base.antt =====
-- What the examples share: the concrete parameters, and two servers seen by a caller on their node and
-- by one elsewhere.
use mathlib.Core.Option.{some-injective}
use basket.Prelude.{
  ℕ, zero, suc, ◌≡◌, refl, ap, sym, subst, ◌∙◌, true, false, ltb, arith, List, [], ◌∷◌, Option,
  some, get_elem?, str_eq_refl, codes, ◌==◌, ==_refl, All,
}
use basket.Container.Order.{Order}
use basket.Container.Hashed.{Key}
use basket.Rpc.Names.{Name, Dispatcher, lookup_name}
use basket.Rpc.Cluster.{Handle, Handler, Node}
use basket.Store
use basket.Store.{LocalStore, Caller, Op, putting, getting, erasing, Result, a_flag, a_pair}

instance abbrev pub nat_order : Order ℕ
nat_order = record {
  lt = ltb;
  lt_irrefl = ground arith;
  lt_trans = ground arith;
  lt_connex = ground arith;
}

abbrev pub nat_key : Key ℕ
nat_key = record { equal = λ a b. a == b; equal-eq = ground arith; equal_refl = ==_refl }

-- A table of functions is a list, the latest first.
abbrev pub list_dispatcher : (H : Type 0) → Dispatcher H
list_dispatcher H = record {
  Table = List (Name × H);
  no_functions = [];
  bind = λ n h t. (n, h) ∷ t;
  function = lookup_name;
  function-no_functions = λ n. refl;
  function-bind_self = λ n h t free. rw (str_eq_refl n);
  function-bind_ne = λ n m h t differ. rw differ;
}

-- A server on its own node, and a client on another.
abbrev pub server_handle : Handle
server_handle = record {
  is_server = true;
  my_server = 0;
  num_servers = 2;
  server_on_node = true;
  func_prefix = codes "TEST";
}

abbrev pub client_handle : Handle
client_handle = record {
  is_server = false;
  my_server = 1;
  num_servers = 2;
  server_on_node = false;
  func_prefix = codes "TEST";
}

-- Calls of a client and of a server, one after the other, and what a map returns.
abbrev pub client : Caller
client = record { is_server = false; my_server = 1; server_on_node = false }

abbrev pub a_server : Caller
a_server = record { is_server = true; my_server = 0; server_on_node = true }

abbrev pub calls : List (Caller × Op ℕ ℕ)
calls =
    (client, putting 3 30)
    ∷ (a_server, getting 3)
    ∷ (a_server, erasing 3)
    ∷ (client, getting 3)
    ∷ []

abbrev pub results : List (Result ℕ)
results = a_flag true ∷ a_pair (true, 30) ∷ a_pair (true, 0) ∷ a_pair (false, 0) ∷ []

abbrev pub hash : ℕ → ℕ
hash k = k

-- The servers that a run ends with are valid.
pub settled :
    {S K V Args Reply B : Type 0} {store : LocalStore S K V} {d : Dispatcher (Handler S Args Reply)}
    {bindings : List (Name × Handler S Args Reply)} {h : Handle} {owner : K → ℕ}
    {r : Option (List (Node d) × B)} {b : B} {f : K → Option V}
    → Store.Becomes store d bindings h owner r b f
    → (nodes : List (Node d)) → r ≡ some (nodes, b)
    → Store.IsValid store d bindings h owner nodes
settled (nodes', run, valid, _) nodes e =
    subst (Store.IsValid _ _ _ _ _) (ap (λ p. p.0) (some-injective _ _ (sym run ∙ e))) valid

-- What holds of all servers holds of each.
pub each {ℓ κ} :
    {A : Type ℓ} (P : A → Type κ) (xs : List A)
    → All P xs
    → (i : ℕ) (x : A) → get_elem? xs i ≡ some x
    → P x
each P [] all i x at = cc
each P (y ∷ ys) all zero x at = subst P (some-injective _ _ at) all.0
each P (y ∷ ys) all (suc i) x at = each P ys all.1 i x at
