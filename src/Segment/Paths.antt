-- ===== src/Segment/Paths.antt =====
-- The names of the files, and of the objects in them.
use mathlib.Core.List.{append_cancel_left}
use basket.Prelude.{
  ℕ, zero, suc, ◌/◌, ◌<◌, ◌≡◌, ◌↔◌, refl, ap, sym, subst, ◌∙◌, false, arith, ltb, List, [], ◌∷◌,
  ◌++◌, append_assoc, Option, length, length-append, codes, str_eq, Bool-cases, inl, inr, str_eq-eq,
  str_eq-append, ◌≢◌,
}
use basket.CharStruct.Defs.{c_str, CharStruct, text, of_chars, of_string, add_string, add_assign}
use basket.CharStruct.Text.{IsArray, IsValid, IsText, Stores, stored, add-Stores}
use basket.Config.Defs.{digits}
use basket.Rpc.Address.{
  decimal_loop, join, to_string, Holds, of_string-Holds, join-Holds, to_string-IsText,
  digits-to_string,
}
use basket.Rpc.Ports.{plus}
use basket.Rpc.Suffixes.{IsPart, no_underscore, split_at_underscore}
use basket.Segment.Defs.{in_dir, in_dir_string, with_number, append_number}

abbrev pub number : ℕ → List ℕ
number n = to_string (plus n)

-- The name of the object of a server, and the path of its file.
abbrev pub numbered : List ℕ → ℕ → List ℕ
numbered name_ n = (name_ ++ codes "_") ++ number n

abbrev pub plain_path : List ℕ → List ℕ → List ℕ
plain_path dir name_ = (dir ++ codes "/") ++ name_

abbrev pub path : List ℕ → List ℕ → ℕ → List ℕ
path dir name_ n = (plain_path dir name_ ++ codes "_") ++ number n

decimal_loop-IsPart :
    (rounds n : ℕ) (later : List ℕ) → IsPart later → IsPart (decimal_loop rounds n later)
unfolding decimal_loop
decimal_loop-IsPart zero n later h = h
decimal_loop-IsPart (suc rounds) n later h = elim (Bool-cases (ltb n 10)) [
  | inl last ↦ rw last (ground arith, h)
  | inr more ↦ rw more (decimal_loop-IsPart rounds (n / 10) _ (ground arith, h))
]

number-IsPart : (n : ℕ) → IsPart (number n)
unfolding to_string
number-IsPart n = decimal_loop-IsPart (suc n) n [] tt

-- The object of a server does not have the name of the mutex.
pub numbered-mtx : (name_ : List ℕ) (n : ℕ) → str_eq (numbered name_ n) (codes "mtx") ≡ false
numbered-mtx name_ n = elim (Bool-cases (str_eq (numbered name_ n) (codes "mtx"))) [
  | inl same ↦
      let e = str_eq-eq (numbered name_ n) (codes "mtx") same in
      absurd (
        no_underscore name_ (number n) (
          subst IsPart (sym e ∙ append_assoc name_ (codes "_") (number n))
            (refl, (refl, (refl, tt)))))
  | inr other ↦ other
]

number-injective : (n m : ℕ) → number n ≡ number m → n ≡ m
number-injective n m e = sym (digits-to_string n) ∙ ap (digits 0) e ∙ digits-to_string m

-- Servers with different numbers name their objects differently.
pub numbered-apart :
    (name_ : List ℕ) (n m : ℕ) → n ≢ m → str_eq (numbered name_ n) (numbered name_ m) ≡ false
numbered-apart name_ n m differ =
    str_eq-append (name_ ++ codes "_") (number n) (number m)
    ∙ elim (Bool-cases (str_eq (number n) (number m))) [
      | inl same ↦ absurd (differ (number-injective n m (str_eq-eq (number n) (number m) same)))
      | inr other ↦ other
    ]

-- Two servers have the same file exactly if they have the same name and number.
pub path_iff : (dir a b : List ℕ) (n m : ℕ) → (path dir a n ≡ path dir b m) ↔ ((a ≡ b) × (n ≡ m))
path_iff dir a b n m = (
  λ e.
      let (names, numbers) =
        split_at_underscore (plain_path dir a) (plain_path dir b) (number n) (number m)
          (number-IsPart n) (number-IsPart m)
          (sym (append_assoc (plain_path dir a) (codes "_") (number n))
            ∙ e
            ∙ append_assoc (plain_path dir b) (codes "_") (number m)) in
      (append_cancel_left (dir ++ codes "/") a b names, number-injective n m numbers),
  λ e. rw (e.0, e.1) refl,
)

module _ (memory : CharStruct) (array : IsArray memory) where
  number-Holds : (n : ℕ) → length (number n) < 256 → Holds (of_string memory (number n)) (number n)
  number-Holds n = of_string-Holds memory array (number n) (to_string-IsText n)

  pub with_number-Holds :
      (o : Option CharStruct) (s : List ℕ) (n : ℕ)
      → Holds o s
      → length ((s ++ codes "_") ++ number n) < 256
      → Holds (with_number memory o n) ((s ++ codes "_") ++ number n)
  unfolding with_number of_string
  with_number-Holds o s n held fits =
      let l1 = length-append s (codes "_") in
      let l2 = length-append (s ++ codes "_") (number n) in
      join-Holds memory array _ _ (s ++ codes "_") (number n)
        (join-Holds memory array o _ s (codes "_") held
          (of_string-Holds memory array (codes "_") refl (omega arith)) (omega (arith, fits, l2)))
        (number-Holds n (omega (arith, fits, l2))) fits

  pub append_number-Holds :
      (o : Option CharStruct) (s : List ℕ) (n : ℕ)
      → Holds o s
      → length (numbered s n) < 256
      → Holds (append_number memory o n) (numbered s n)
  unfolding append_number
  append_number-Holds o s n (c, is_c, valid, has) fits =
      let l1 = length-append s (codes "_") in
      let l2 = length-append (s ++ codes "_") (number n) in
      let l3 = length-append (codes "_") (number n) in
      let (x, is_x, valid_x, text_x) =
        of_string-Holds memory array (codes "_" ++ number n) (ap (λ r. 95 ∷ r) (to_string-IsText n))
          (omega (arith, fits, l1, l2, l3)) in
      rw (is_c, is_x)
        (stored (add_assign c x) (numbered s n) fits (
          subst (Stores (add_assign c x))
            (ap (λ r. r ++ text x) has
              ∙ ap (λ r. s ++ r) text_x
              ∙ sym (append_assoc s (codes "_") (number n)))
            (add-Stores memory c x [] array valid.0).2))

  dir-Holds :
      (dir : List ℕ)
      → IsText dir
      → length (dir ++ codes "/") < 256
      → Holds (join memory (of_string memory dir) (of_chars memory (codes "/"))) (dir ++ codes "/")
  unfolding of_string
  dir-Holds dir plain fits =
      let l1 = length-append dir (codes "/") in
      join-Holds memory array _ _ dir (codes "/")
        (of_string-Holds memory array dir plain (omega (arith, fits, l1)))
        (of_string-Holds memory array (codes "/") refl (omega arith)) fits

  -- The directory and the name, where they fit.
  pub in_dir-Holds :
      (dir : List ℕ) (name_ : CharStruct)
      → IsText dir
      → IsValid name_
      → length (plain_path dir (text name_)) < 256
      → Holds (in_dir memory dir name_) (plain_path dir (text name_))
  unfolding in_dir
  in_dir-Holds dir name_ plain valid fits =
      let l1 = length-append (dir ++ codes "/") (text name_) in
      join-Holds memory array _ _ (dir ++ codes "/") (text name_)
        (dir-Holds dir plain (omega (arith, fits, l1))) (name_, refl, valid, refl) fits

  pub in_dir_string-Holds :
      (dir name_ : List ℕ)
      → IsText dir
      → IsText name_
      → length (plain_path dir name_) < 256
      → Holds (in_dir_string memory dir name_) (plain_path dir name_)
  unfolding in_dir_string
  in_dir_string-Holds dir name_ plain word fits =
      let l1 = length-append (dir ++ codes "/") name_ in
      let (c, is_c, valid, has) = dir-Holds dir plain (omega (arith, fits, l1)) in
      rw is_c (
        stored (add_string memory c name_) (plain_path dir name_) fits (
          subst (Stores (add_string memory c name_))
            (ap (λ r. r ++ c_str name_) has ∙ ap (λ r. (dir ++ codes "/") ++ r) word)
            (add-Stores memory c c name_ array valid.0).1))
