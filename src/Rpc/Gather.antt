-- ===== src/Rpc/Gather.antt =====
-- The loops of `GetAllData` and `Contains` over the servers.
use mathlib.Core.List.Perm
use mathlib.Core.Option.{or_else}
use mathlib.Core.List.{Perm, perm_append_comm}
use basket.Prelude.{
  ℕ, zero, suc, ◌+◌, ◌<◌, ◌≤◌, ◌≡◌, refl, false, Option, none, some, List, [], ◌∷◌, ◌++◌, ◌==◌,
  get_elem?, if◌then◌else◌, arith, length, Bool-cases, inl, inr, ◌∙◌, append_assoc, append-nil, ap,
}
use basket.Rpc.Names.{Dispatcher}
use basket.Rpc.Cluster.{Handle, Handler, Node, gather, gather_loop}

or_else-none {ℓ} : {A : Type ℓ} (o : Option A) → or_else o none ≡ o
unfolding or_else
or_else-none none = refl
or_else-none (some a) = refl

module _ {E : Type 0} where
  -- The values of the `rounds` servers from `i` on, and those of all of them but `my_server`.
  pub from : (ℕ → List E) → ℕ → ℕ → List E
  from values zero i = []
  from values (suc rounds) i = values i ++ from values rounds (suc i)

  pub except : ℕ → (ℕ → List E) → ℕ → ℕ → List E
  except my_server values zero i = []
  except my_server values (suc rounds) i =
      (if i == my_server then [] else values i) ++ except my_server values rounds (suc i)

  except_later :
      (m : ℕ) (values : ℕ → List E) (r i : ℕ) → m < i → except m values r i ≡ from values r i
  unfolding from except
  except_later m values zero i h = refl
  except_later m values (suc r) i h = ground (arith, except_later m values r (suc i))

  perm_front : (xs ys zs : List E) → Perm (xs ++ (ys ++ zs)) (ys ++ (xs ++ zs))
  perm_front xs ys zs =
      rw (← append_assoc xs ys zs, ← append_assoc ys xs zs)
        (Perm.append_right zs (perm_append_comm xs ys))

  -- With its own values first, the server has those of all.
  pub except-perm-from :
      (m : ℕ) (values : ℕ → List E) (r i : ℕ)
      → i ≤ m
      → m < i + r
      → Perm (values m ++ except m values r i) (from values r i)
  unfolding from except
  except-perm-from m values zero i lo hi = absurd (omega arith)
  except-perm-from m values (suc r) i lo hi = elim (Bool-cases (i == m)) [
    | inl here ↦
        let e : i ≡ m = ground arith in
        rw (here, except_later m values r (suc i) (omega arith), e) (Perm.refl _)
    | inr later ↦ rw later (
        Perm.trans (perm_front (values m) (values i) (except m values r (suc i))) (
          Perm.append_left (values i)
            (except-perm-from m values r (suc i) (ground arith) (omega arith))))
  ]

  -- What `GetAllData` returns.
  pub gathered : ℕ → ℕ → (ℕ → List E) → List E
  gathered m n values = values m ++ except m values n 0

  -- A search that goes through a list from its head, and finds nothing but at one server `w`.
  module _ {X : Type 0} (look : List E → Option X) (nothing : look [] ≡ none)
      (split : (xs ys : List E) → look (xs ++ ys) ≡ or_else (look xs) (look ys))
      (values : ℕ → List E) (w : ℕ)
      (only : (i : ℕ) → (i == w) ≡ false → look (values i) ≡ none) where
    part_none : (m i : ℕ) → (i == w) ≡ false → look (if i == m then [] else values i) ≡ none
    part_none m i apart = elim (Bool-cases (i == m)) [
      | inl own ↦ rw own nothing
      | inr other ↦ rw other (only i apart)
    ]

    look-except-none :
        (m r i : ℕ)
        → ((j : ℕ) → i ≤ j → (j == m) ≡ false → (j == w) ≡ false)
        → look (except m values r i) ≡ none
    unfolding except or_else
    look-except-none m zero i quiet = nothing
    look-except-none m (suc r) i quiet =
        let rest = look-except-none m r (suc i) (λ j h. quiet j (omega arith)) in
        elim (Bool-cases (i == m)) [
          | inl own ↦ rw own rest
          | inr other ↦ rw (other, split, only i (quiet i (omega arith) other)) rest
        ]

    look-except :
        (m r i : ℕ)
        → (m == w) ≡ false
        → i ≤ w
        → w < i + r
        → look (except m values r i) ≡ look (values w)
    unfolding except or_else
    look-except m zero i apart lo hi = absurd (omega arith)
    look-except m (suc r) i apart lo hi = elim (Bool-cases (i == w)) [
      | inl here ↦
          let e : i ≡ w = ground arith in
          let rest = look-except-none m r (suc i) (λ j h _. ground arith) in
          let other : (i == m) ≡ false = ground arith in
          rw (other, split, rest, e) (or_else-none (look (values w)))
      | inr later ↦
          rw (split, part_none m i later)
            (look-except m r (suc i) apart (ground arith) (omega arith))
    ]

    -- It finds in what was gathered what that server has.
    pub look-gathered : (m n : ℕ) → w < n → look (gathered m n values) ≡ look (values w)
    unfolding gathered or_else
    look-gathered m n lt = elim (Bool-cases (m == w)) [
      | inl here ↦
          let e : m ≡ w = ground arith in
          rw (split, look-except-none m n 0 (λ j _ h. ground arith), e)
            (or_else-none (look (values w)))
      | inr other ↦ rw (split, only m other) (look-except m n 0 other (omega arith) (omega arith))
    ]

  from-suc :
      (values : ℕ → List E) (r i : ℕ) → from values r (suc i) ≡ from (λ j. values (suc j)) r i
  unfolding from
  from-suc values zero i = refl
  from-suc values (suc r) i = rw (from-suc values r (suc i))

module _ {S Args Reply : Type 0} (d : Dispatcher (Handler S Args Reply)) {E : Type 0} where
  -- The values in all segments, in the servers' order.
  unfoldable pub collect : (S → List E) → List (Node d) → List E
  collect g [] = []
  collect g (node ∷ nodes) = g node.segment ++ collect g nodes

  abbrev pub values_of : (S → List E) → Option (Node d) → List E
  values_of g none = []
  values_of g (some node) = g node.segment

  abbrev pub values_at : (S → List E) → List (Node d) → ℕ → List E
  values_at g nodes i = values_of g (get_elem? nodes i)

  from-collect :
      (g : S → List E) (nodes : List (Node d))
      → from (values_at g nodes) (length nodes) 0 ≡ collect g nodes
  unfolding from collect
  from-collect g [] = refl
  from-collect g (node ∷ nodes) =
      rw (from-suc (values_at g (node ∷ nodes)) (length nodes) 0, from-collect g nodes)

  gather_loop-except :
      (nodes : List (Node d)) (values : ℕ → List E)
      (ask : ℕ → List (Node d) → Option (List (Node d) × List E)) (m n r i : ℕ) (acc : List E)
      → i + r ≤ n
      → ((j : ℕ) → j < n → ask j nodes ≡ some (nodes, values j))
      → gather_loop d r i m ask acc nodes ≡ some (nodes, acc ++ except m values r i)
  unfolding gather_loop except
  gather_loop-except nodes values ask m n zero i acc h asked = rw append-nil
  gather_loop-except nodes values ask m n (suc r) i acc h asked = elim (Bool-cases (i == m)) [
    | inl here ↦ rw here (gather_loop-except nodes values ask m n r (suc i) acc (omega arith) asked)
    | inr other ↦
        rw (other, asked i (omega arith))
          (gather_loop-except nodes values ask m n r (suc i) (acc ++ values i) (omega arith) asked
            ∙ ap (λ l. some (nodes, l)) (append_assoc acc (values i) _))
  ]

  module _ (h : Handle) (nodes : List (Node d)) (values : ℕ → List E)
      (current : List (Node d) → Option (List (Node d) × List E))
      (ask : ℕ → List (Node d) → Option (List (Node d) × List E))
      (mine : current nodes ≡ some (nodes, values h.my_server))
      (asked : (j : ℕ) → j < h.num_servers → ask j nodes ≡ some (nodes, values j)) where
    -- Servers that all answer stay as they are, and each gives its values once.
    pub gather-gathered :
        gather d h current ask nodes ≡ some (nodes, gathered h.my_server h.num_servers values)
    unfolding gather gathered
    gather-gathered = rw mine (
        gather_loop-except nodes values ask h.my_server h.num_servers h.num_servers 0
          (values h.my_server) (omega arith) asked)

  pub gathered-perm-collect :
      (m : ℕ) (nodes : List (Node d)) (g : S → List E)
      → m < length nodes
      → Perm (gathered m (length nodes) (values_at g nodes)) (collect g nodes)
  unfolding gathered
  gathered-perm-collect m nodes g home =
      rw (← from-collect g nodes)
        (except-perm-from m (values_at g nodes) (length nodes) 0 (omega arith) (omega arith))
