-- ===== src/Rpc/Suffixes.antt =====
-- The names under which several containers of one server bind their functions
-- (`rpc->bind(func_prefix+"_Put", putFunc)` and the others).
use mathlib.Core.Option.{some-injective}
use basket.Prelude.{
  ℕ, ◌≡◌, ◌≢◌, refl, sym, subst, ◌∙◌, true, false, ◌==◌, arith, List, [], ◌∷◌, ◌++◌, none, some,
  get_elem?, All, Bool, str_eq, str_eq-eq, Bool-cases, inl, inr, if◌then◌else◌, zero, suc,
}
use basket.Rpc.Names.{Name, Dispatcher, Distinct, lookup_name, bind_all, function-bind_all}

-- Without an underscore.
abbrev pub IsPart : List ℕ → Type 0
IsPart = All (λ c. (c == 95) ≡ false)

pub no_underscore : (s t : List ℕ) → IsPart (s ++ 95 ∷ t) → ⊥
no_underscore [] t h = cc (h.0)
no_underscore (c ∷ s) t h = no_underscore s t h.1

-- The last underscore separates the name from the number.
pub split_at_underscore :
    (a b s t : List ℕ) → IsPart s → IsPart t → a ++ 95 ∷ s ≡ b ++ 95 ∷ t → (a ≡ b) × (s ≡ t)
split_at_underscore [] [] s t hs ht e = (refl, ground (arith, e))
split_at_underscore [] (c ∷ b) s t hs ht e =
    let tail : s ≡ b ++ 95 ∷ t = ground (arith, e) in
    absurd (no_underscore b t (subst IsPart tail hs))
split_at_underscore (c ∷ a) [] s t hs ht e =
    let tail : a ++ 95 ∷ s ≡ t = ground (arith, e) in
    absurd (no_underscore a s (subst IsPart (sym tail) ht))
split_at_underscore (c ∷ a) (c' ∷ b) s t hs ht e =
    let head : c ≡ c' = ground (arith, e) in
    let tail : a ++ 95 ∷ s ≡ b ++ 95 ∷ t = ground (arith, e) in
    let (names, numbers) = split_at_underscore a b s t hs ht tail in
    (rw (head, names) refl, numbers)

-- An underscore and a word without one.
abbrev pub IsSuffix : Name → Type 0
IsSuffix n = (s : List ℕ) × (n ≡ 95 ∷ s) × IsPart s

-- A check of it.
abbrev pub part : List ℕ → Bool
part [] = true
part (c ∷ s) = if c == 95 then false else part s

part-IsPart : (s : List ℕ) → part s ≡ true → IsPart s
part-IsPart [] e = tt
part-IsPart (c ∷ s) e = elim (Bool-cases (c == 95)) [
  | inl same ↦ cc (rw same at e)
  | inr other ↦ (other, part-IsPart s (rw other at e))
]

pub word-IsSuffix : (s : List ℕ) → part s ≡ true → IsSuffix (95 ∷ s)
word-IsSuffix s e = (s, refl, part-IsPart s e)

names-apart : (a b n m : Name) → IsSuffix n → IsSuffix m → a ≢ b → str_eq (a ++ n) (b ++ m) ≡ false
names-apart a b n m (s, is_n, part_s) (t, is_m, part_t) differ =
    elim (Bool-cases (str_eq (a ++ n) (b ++ m))) [
      | inl same ↦
          let e : a ++ 95 ∷ s ≡ b ++ 95 ∷ t =
            rw (← is_n, ← is_m) (str_eq-eq (a ++ n) (b ++ m) same) in
          absurd (differ (split_at_underscore a b s t part_s part_t e).0)
      | inr other ↦ other
    ]

module _ {H : Type 0} (d : Dispatcher H) where
  open d use {Table, bind, function}

  -- A container on a server: its name, and what it binds.
  abbrev pub Container : Type 0
  Container = Name × List (Name × H)

  -- The constructors of several containers, with one RPC object.
  abbrev pub bind_each : List Container → Table → Table
  bind_each [] t = t
  bind_each (c ∷ cs) t = bind_each cs (bind_all d c.0 c.1 t)

  -- The functions of a container have different suffixes.
  abbrev pub Suffixed : Container → Type 0
  Suffixed c = All (λ b. IsSuffix b.0) c.1 × Distinct c.1

  -- No two containers have the same name.
  abbrev pub Named : List Container → Type 0
  Named [] = Unit
  Named (c ∷ cs) = All (λ e. c.0 ≢ e.0) cs × Named cs

  lookup-IsSuffix :
      (bs : List (Name × H)) (n : Name) (h : H)
      → All (λ b. IsSuffix b.0) bs
      → lookup_name n bs ≡ some h
      → IsSuffix n
  lookup-IsSuffix [] n h all e = cc
  lookup-IsSuffix ((m, g) ∷ bs) n h (first, all) e = elim (Bool-cases (str_eq m n)) [
    | inl same ↦ subst IsSuffix (str_eq-eq m n same) first
    | inr other ↦ lookup-IsSuffix bs n h all (rw other at e)
  ]

  -- The functions of one container leave the names of another alone.
  function-other :
      (a b m : Name) (bs : List (Name × H)) (t : Table)
      → a ≢ b
      → IsSuffix m
      → All (λ x. IsSuffix x.0) bs
      → function (b ++ m) (bind_all d a bs t) ≡ function (b ++ m) t
  unfolding bind_all
  function-other a b m [] t differ suffix all = refl
  function-other a b m ((n, h) ∷ bs) t differ suffix (first, all) =
      function-other a b m bs (bind (a ++ n) h t) differ suffix all
      ∙ d.function-bind_ne (a ++ n) (b ++ m) h t (names-apart a b n m first suffix differ)

  function-others :
      (b m : Name) (cs : List Container) (t : Table)
      → All (λ e. b ≢ e.0) cs
      → IsSuffix m
      → All Suffixed cs
      → function (b ++ m) (bind_each cs t) ≡ function (b ++ m) t
  function-others b m [] t differ suffix all = refl
  function-others b m (c ∷ cs) t (one, differ) suffix (first, all) =
      function-others b m cs (bind_all d c.0 c.1 t) differ suffix all
      ∙ function-other c.0 b m c.1 t (λ e. one (sym e)) suffix first.0

  -- No function is bound yet under a name of the containers.
  abbrev pub Free : List Container → Table → Type 0
  Free cs t =
      (i : ℕ) (c : Container) (n : Name) (h : H)
      → get_elem? cs i ≡ some c
      → lookup_name n c.1 ≡ some h
      → function (c.0 ++ n) t ≡ none

  Free-after :
      (c : Container) (cs : List Container) (t : Table)
      → All (λ e. c.0 ≢ e.0) cs
      → Suffixed c
      → All Suffixed cs
      → Free cs t
      → Free cs (bind_all d c.0 c.1 t)
  Free-after c [] t differ first all free i e n h at bound = cc
  Free-after c (e ∷ cs) t (one, differ) first (second, all) free zero e' n h at bound =
      let same : e ≡ e' = some-injective _ _ at in
      let found : lookup_name n e.1 ≡ some h = rw same bound in
      rw (← same) (
        function-other c.0 e.0 n c.1 t one (lookup-IsSuffix e.1 n h second.0 found) first.0
        ∙ free 0 e n h refl found)
  Free-after c (e ∷ cs) t (one, differ) first (second, all) free (suc i) e' n h at bound =
      Free-after c cs t differ first all (λ j. free (suc j)) i e' n h at bound

  -- Containers of one server bind their functions one after the other with the same RPC object. Their
  -- names differ. Each binds under different suffixes, which start with an underscore and have no
  -- other, and the RPC object has no function under these names before. Then each function that a
  -- container binds is found under its name after all of them: no container takes the calls of
  -- another.
  pub containers-bound :
      (cs : List Container) (t : Table)
      → All Suffixed cs
      → Named cs
      → Free cs t
      → (i : ℕ) (c : Container) (n : Name) (h : H) → get_elem? cs i ≡ some c
      → lookup_name n c.1 ≡ some h
      → function (c.0 ++ n) (bind_each cs t) ≡ some h
  containers-bound [] t all named free i c n h at bound = cc
  containers-bound (c ∷ cs) t (first, all) (differ, named) free zero e n h at bound =
      let same : c ≡ e = some-injective _ _ at in
      let found : lookup_name n c.1 ≡ some h = rw same bound in
      rw (← same) (
        function-others c.0 n cs (bind_all d c.0 c.1 t) differ
          (lookup-IsSuffix c.1 n h first.0 found) all
        ∙ function-bind_all d c.0 c.1 t first.1 (λ m g b. free 0 c m g refl b) n h found)
  containers-bound (c ∷ cs) t (first, all) (differ, named) free (suc i) e n h at bound =
      let rest = Free-after c cs t differ first all (λ j. free (suc j)) in
      containers-bound cs (bind_all d c.0 c.1 t) all named rest i e n h at bound
