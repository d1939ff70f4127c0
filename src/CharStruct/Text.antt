-- ===== src/CharStruct/Text.antt =====
-- The text that the operations of `CharStruct` leave in the array.
use basket.Prelude.{
  ℕ, zero, suc, ◌-◌, ◌<◌, ◌≤◌, ◌≡◌, refl, ap, sym, subst, ◌∙◌, ◌⊎◌, inl, inr, ◌==◌, ltb, Bool-cases,
  arith, List, [], ◌∷◌, ◌++◌, Option, none, some, length, take, drop, append-nil, length-append,
}
use basket.CharStruct.Defs.{
  c_str, CharStruct, strcpy, snprintf, text, of_chars, of_string, of_data, set_string, copy, assign,
  add, add_string, add_assign,
}

-- The array of the source.
abbrev pub IsArray : CharStruct → Type 0
IsArray c = length c.value ≡ 256

-- An array that has a NUL.
abbrev pub IsValid : CharStruct → Type 0
IsValid c = IsArray c × (length (text c) < 256)

-- A text without a NUL.
abbrev pub IsText : List ℕ → Type 0
IsText s = c_str s ≡ s

-- A text that fits is held, by a valid array; one that does not is written behind the array.
abbrev pub Stores : Option CharStruct → List ℕ → Type 0
Stores o s =
    ((length s < 256) × (c : CharStruct) × (o ≡ some c) × IsValid c × (text c ≡ s))
    ⊎ ((256 ≤ length s) × (o ≡ none))

pub c_str-IsText : (s : List ℕ) → IsText (c_str s)
unfolding c_str
c_str-IsText [] = refl
c_str-IsText (c ∷ cs) = elim (Bool-cases (c == 0)) [
  | inl nul ↦ rw nul refl
  | inr other ↦ rw (other, other) (ap (λ r. c ∷ r) (c_str-IsText cs))
]

-- A text ends where another one starts, or a NUL.
pub c_str-append : (s t : List ℕ) → c_str (c_str s ++ t) ≡ c_str s ++ c_str t
unfolding c_str
c_str-append [] t = refl
c_str-append (c ∷ cs) t = elim (Bool-cases (c == 0)) [
  | inl nul ↦ rw nul refl
  | inr other ↦ rw (other, other) (ap (λ r. c ∷ r) (c_str-append cs t))
]

c_str-take : (n : ℕ) (s : List ℕ) → IsText (take n (c_str s))
unfolding c_str
c_str-take zero s = refl
c_str-take (suc n) [] = refl
c_str-take (suc n) (c ∷ cs) = elim (Bool-cases (c == 0)) [
  | inl nul ↦ rw nul refl
  | inr other ↦ rw (other, other) (ap (λ r. c ∷ r) (c_str-take n cs))
]

length-drop : (n : ℕ) (s : List ℕ) → length (drop n s) ≡ length s - n
length-drop zero s = omega arith
length-drop (suc n) [] = omega arith
length-drop (suc n) (c ∷ cs) = omega (arith, length-drop n cs)

pub length-c_str : (s : List ℕ) → length (c_str s) ≤ length s
unfolding c_str
length-c_str [] = omega arith
length-c_str (c ∷ cs) = elim (Bool-cases (c == 0)) [
  | inl nul ↦ rw nul (omega arith)
  | inr other ↦ rw other (omega (arith, length-c_str cs))
]

pub take-c_str : (s : List ℕ) → take (length (c_str s)) s ≡ c_str s
unfolding c_str
take-c_str [] = refl
take-c_str (c ∷ cs) = elim (Bool-cases (c == 0)) [
  | inl nul ↦ rw nul refl
  | inr other ↦ rw other (ap (λ r. c ∷ r) (take-c_str cs))
]

c_str-nul : (s t : List ℕ) → c_str (c_str s ++ 0 ∷ t) ≡ c_str s
unfolding c_str
c_str-nul s t = c_str-append s (0 ∷ t) ∙ append-nil (c_str s)

length-strcpy :
    (s t : List ℕ) → length s < length t → length (s ++ 0 ∷ drop (suc (length s)) t) ≡ length t
length-strcpy s t lt =
    omega (arith, lt, length-append s (0 ∷ drop (suc (length s)) t), length-drop (suc (length s)) t)

pub strcpy-Stores : (c : CharStruct) (s : List ℕ) → IsArray c → IsText s → Stores (strcpy c s) s
unfolding strcpy text
strcpy-Stores c s array plain = elim (Bool-cases (ltb (length s) 256)) [
  | inl short ↦
      let fits : length s < 256 = ground arith in
      let rest = drop (suc (length s)) c.value in
      let held : c_str (s ++ 0 ∷ rest) ≡ s =
        ap (λ x. c_str (x ++ 0 ∷ rest)) (sym plain) ∙ c_str-nul s rest ∙ plain in
      let size = length-strcpy s c.value (rw array fits) ∙ array in
      inl
        (fits, record { value = s ++ 0 ∷ rest }, rw (array, short) refl, (size, rw held fits), held)
  | inr long ↦ inr (ground arith, rw (array, long) refl)
]

-- A text that fits is held.
pub stored :
    (o : Option CharStruct) (s : List ℕ)
    → length s < 256
    → Stores o s
    → (c : CharStruct) × (o ≡ some c) × IsValid c × (text c ≡ s)
stored o s fits (inl held) = (held.1, held.2, held.3, held.4)
stored o s fits (inr long) = absurd (omega (arith, long.0, fits))

-- `snprintf` with room for the whole text.
snprintf-Stores :
    (c : CharStruct) (n : ℕ) (s : List ℕ)
    → IsArray c
    → Stores (snprintf c (suc n) s) (take n (c_str s))
unfolding snprintf
snprintf-Stores c n s array = strcpy-Stores c (take n (c_str s)) array (c_str-take n s)

take_enough : (n : ℕ) (s : List ℕ) → length s ≤ n → take n s ≡ s
take_enough zero [] le = refl
take_enough zero (c ∷ cs) le = absurd (omega arith)
take_enough (suc n) [] le = refl
take_enough (suc n) (c ∷ cs) le = ap (λ r. c ∷ r) (take_enough n cs (omega arith))

-- A text, cut at its first NUL, is held by the array of the new object if it has at most 255
-- bytes; a longer one is written behind the array.
pub of_string-Stores :
    (memory : CharStruct) (s : List ℕ) → IsArray memory → Stores (of_string memory s) (c_str s)
unfolding of_string of_chars snprintf
of_string-Stores memory s array =
    rw (take_enough (length (c_str s)) (c_str s) (omega arith))
      (strcpy-Stores memory (c_str s) array (c_str-IsText s))

-- `CharStruct(char*, size_t)` keeps at most `size - 1` bytes of the text, one less than asked for.
pub of_data-Stores :
    (memory : CharStruct) (s : List ℕ) (n : ℕ)
    → IsArray memory
    → Stores (of_data memory s (suc n)) (take n (c_str s))
unfolding of_data
of_data-Stores memory s n array = snprintf-Stores memory n s array

pub text-IsText : (c : CharStruct) → IsText (text c)
unfolding text
text-IsText c = c_str-IsText c.value

text-append : (a : CharStruct) (s : List ℕ) → c_str (text a ++ s) ≡ text a ++ c_str s
unfolding text
text-append a s = c_str-append a.value s

-- A sum of texts is held by the array of the new object, or of the left operand of `+=`, if it has
-- at most 255 bytes, and otherwise written behind the array; a `std::string` counts up to its first
-- NUL.
pub add-Stores :
    (memory a b : CharStruct) (s : List ℕ)
    → IsArray memory
    → IsArray a
    → Stores (add memory a b) (text a ++ text b)
      × Stores (add_string memory a s) (text a ++ c_str s)
      × Stores (add_assign a b) (text a ++ text b)
unfolding add add_string add_assign set_string
add-Stores memory a b s array left =
    let sum : c_str (text a ++ text b) ≡ text a ++ text b =
      text-append a (text b) ∙ ap (λ x. text a ++ x) (text-IsText b) in
    (
      subst (Stores (of_string memory (text a ++ text b))) sum
          (of_string-Stores memory (text a ++ text b) array),
      subst (Stores (of_string memory (text a ++ s))) (text-append a s)
          (of_string-Stores memory (text a ++ s) array),
      subst (Stores (snprintf a (suc (length (text a ++ text b))) (text a ++ text b)))
          (take_enough (length (text a ++ text b)) (c_str (text a ++ text b))
              (length-c_str (text a ++ text b))
            ∙ sum)
          (snprintf-Stores a (length (text a ++ text b)) (text a ++ text b) left),
    )

pub assign-Stores : (c other : CharStruct) → IsArray c → Stores (assign c other) (text other)
unfolding assign
assign-Stores c other room = strcpy-Stores c (text other) room (text-IsText other)

-- A copy of a valid object, by the constructor or by an assignment, is valid and has its text.
pub copy-text :
    (memory c other : CharStruct)
    → IsArray memory
    → IsArray c
    → IsValid other
    → ((new : CharStruct) × (copy memory other ≡ some new) × IsValid new × (text new ≡ text other))
      × ((new : CharStruct) × (assign c other ≡ some new) × IsValid new × (text new ≡ text other))
unfolding copy of_string text
copy-text memory c other array room valid = (
  stored (copy memory other) (text other) valid.1 (of_string-Stores memory other.value array),
  stored (assign c other) (text other) valid.1 (assign-Stores c other room),
)
