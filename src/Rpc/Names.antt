-- ===== src/Rpc/Names.antt =====
-- The table of functions of a server, in which `RPC::bind` enters a function under its name
-- (include/basket/communication/rpc_lib.cpp). The table is that of `rpc::server` or `tl::engine`,
-- libraries outside the repository, so it stands behind an interface.
use basket.Prelude.{
  ℕ, ◌≡◌, refl, ◌∙◌, false, Option, none, some, List, [], ◌∷◌, ◌++◌, arith, str_eq, str_eq-eq,
  str_eq_refl, str_eq-append, if◌then◌else◌, Bool-cases, inl, inr,
}

abbrev pub Name : Type 0
Name = List ℕ

-- What the code relies on: a function bound under a free name is found under it, and binding it
-- leaves the other names alone.
pub record Dispatcher (H : Type 0) : Type 1 where
  pub Table : Type 0
  pub no_functions : Table
  pub bind : Name → H → Table → Table
  pub function : Name → Table → Option H
  pub function-no_functions : (n : Name) → function n no_functions ≡ none
  pub function-bind_self :
      (n : Name) (h : H) (t : Table) → function n t ≡ none → function n (bind n h t) ≡ some h
  pub function-bind_ne :
      (n m : Name) (h : H) (t : Table) → str_eq n m ≡ false → function m (bind n h t) ≡ function m t

-- The entry of a list of bindings under a name.
abbrev pub lookup_name {ℓ} : {H : Type ℓ} → Name → List (Name × H) → Option H
lookup_name n [] = none
lookup_name n ((m, h) ∷ bs) = if str_eq m n then some h else lookup_name n bs

abbrev pub Distinct {ℓ} : {H : Type ℓ} → List (Name × H) → Type ℓ
Distinct [] = Unit
Distinct ((n, h) ∷ bs) = (lookup_name n bs ≡ none) × Distinct bs

module _ {H : Type 0} (d : Dispatcher H) where
  open d use {Table, bind, function}

  -- The `rpc->bind(func_prefix+"...", ...)` calls of a constructor, one after the other.
  unfoldable pub bind_all : Name → List (Name × H) → Table → Table
  bind_all prefix [] t = t
  bind_all prefix ((n, h) ∷ bs) t = bind_all prefix bs (bind (prefix ++ n) h t)

  -- A name that is not among those bound keeps its function.
  function-bind_all_other :
      (prefix : Name) (bs : List (Name × H)) (t : Table) (n : Name)
      → lookup_name n bs ≡ none
      → function (prefix ++ n) (bind_all prefix bs t) ≡ function (prefix ++ n) t
  unfolding bind_all
  function-bind_all_other prefix [] t n e = refl
  function-bind_all_other prefix ((m, h) ∷ bs) t n e = elim (Bool-cases (str_eq m n)) [
    | inl same ↦ cc (rw same at e)
    | inr other ↦
        function-bind_all_other prefix bs _ n (rw other at e)
        ∙ d.function-bind_ne (prefix ++ m) (prefix ++ n) h t (str_eq-append prefix m n ∙ other)
  ]

  -- A name that is among the later bindings is not that of the first.
  apart :
      (m n : Name) (bs : List (Name × H)) {h : H}
      → lookup_name m bs ≡ none
      → lookup_name n bs ≡ some h
      → str_eq m n ≡ false
  apart m n bs absent present = elim (Bool-cases (str_eq m n)) [
    | inl same ↦ cc (str_eq-eq m n same)
    | inr other ↦ other
  ]

  -- After the `bind` calls each listed name leads to its function.
  pub function-bind_all :
      (prefix : Name) (bs : List (Name × H)) (t : Table)
      → Distinct bs
      → ((n : Name) (h : H) → lookup_name n bs ≡ some h → function (prefix ++ n) t ≡ none)
      → (n : Name) (h : H) → lookup_name n bs ≡ some h
      → function (prefix ++ n) (bind_all prefix bs t) ≡ some h
  unfolding bind_all
  function-bind_all prefix [] t distinct free n h e = cc
  function-bind_all prefix ((m, g) ∷ bs) t distinct free n h e = elim (Bool-cases (str_eq m n)) [
    | inl same ↦
        let m_eq : m ≡ n = str_eq-eq m n same in
        let first : g ≡ h = ground (arith) in
        rw (← m_eq, ← first)
          (function-bind_all_other prefix bs _ m distinct.0
            ∙ d.function-bind_self (prefix ++ m) g t (free m g (rw (str_eq_refl m))))
    | inr other ↦
        function-bind_all prefix bs _ distinct.1
          (λ k f found.
            let differ = apart m k bs distinct.0 found in
            d.function-bind_ne (prefix ++ m) (prefix ++ k) g t (str_eq-append prefix m k ∙ differ)
            ∙ free k f (rw differ found))
          n h (rw other at e)
  ]
