-- ===== src/CharStruct/Compare.antt =====
-- The comparisons of `CharStruct`, and the order of the texts.
use basket.Prelude.{ℕ, ◌≡◌, refl, ap, ◌↔◌, true, false, not, ◌||◌, arith, List, [], ◌∷◌}
use basket.Container.Order.{Order}
use basket.CharStruct.Defs.{
  CharStruct, text, Sign, negative, null, positive, strcmp, is_negative, is_null, is_positive,
  equal, less, less_equal, greater, greater_equal, hash,
}

pub strcmp-null : (s : List ℕ) → strcmp s s ≡ null
unfolding strcmp
strcmp-null [] = refl
strcmp-null (a ∷ s) = ground (arith, strcmp-null s)

pub eq-strcmp : (s t : List ℕ) → strcmp s t ≡ null → s ≡ t
unfolding strcmp
eq-strcmp [] [] h = refl
eq-strcmp [] (b ∷ t) h = cc
eq-strcmp (a ∷ s) [] h = cc
eq-strcmp (a ∷ s) (b ∷ t) h = ground (arith, eq-strcmp s t)

abbrev pub flip : Sign → Sign
flip negative = positive
flip null = null
flip positive = negative

pub strcmp-flip : (s t : List ℕ) → strcmp t s ≡ flip (strcmp s t)
unfolding strcmp
strcmp-flip [] [] = refl
strcmp-flip [] (b ∷ t) = refl
strcmp-flip (a ∷ s) [] = refl
strcmp-flip (a ∷ s) (b ∷ t) = ground (arith, strcmp-flip s t)

pub strcmp_trans :
    (s t u : List ℕ) → strcmp s t ≡ negative → strcmp t u ≡ negative → strcmp s u ≡ negative
unfolding strcmp
strcmp_trans [] [] u h k = cc
strcmp_trans (a ∷ s) [] u h k = cc
strcmp_trans [] (b ∷ t) [] h k = cc
strcmp_trans [] (b ∷ t) (c ∷ u) h k = refl
strcmp_trans (a ∷ s) (b ∷ t) [] h k = cc
strcmp_trans (a ∷ s) (b ∷ t) (c ∷ u) h k =
    ground (arith, strcmp_trans s t u, eq-strcmp s t, eq-strcmp t u)

pub negative_lem : {x : Sign} → is_negative x ≡ true → x ≡ negative
negative_lem {x = negative} h = refl
negative_lem {x = null} h = cc
negative_lem {x = positive} h = cc

pub null_lem : {x : Sign} → is_negative x ≡ false → is_negative (flip x) ≡ false → x ≡ null
null_lem {x = negative} h k = cc
null_lem {x = null} h k = refl
null_lem {x = positive} h k = cc

is_null-eq : {x : Sign} → is_null x ≡ true → x ≡ null
is_null-eq {x = negative} h = cc
is_null-eq {x = null} h = refl
is_null-eq {x = positive} h = cc

positive_lem : (x : Sign) → is_positive x ≡ is_negative (flip x)
positive_lem negative = refl
positive_lem null = refl
positive_lem positive = refl

not_positive_lem : (x : Sign) → not (is_positive x) ≡ (is_negative x || is_null x)
not_positive_lem negative = refl
not_positive_lem null = refl
not_positive_lem positive = refl

not_negative_lem : (x : Sign) → not (is_negative x) ≡ not (is_positive (flip x))
not_negative_lem negative = refl
not_negative_lem null = refl
not_negative_lem positive = refl

-- The order of the texts that `operator<` stands for, which `std::less<CharStruct>` hands to the
-- ordered containers.
unfoldable pub text_order : Order (List ℕ)
unfolding strcmp
text_order = record {
  lt = λ s t. is_negative (strcmp s t);
  lt_irrefl = λ s. rw (strcmp-null s) refl;
  lt_trans = λ s t u h k. rw (strcmp_trans s t u (negative_lem h) (negative_lem k)) refl;
  lt_connex = λ s t h k. eq-strcmp s t (null_lem h (rw (strcmp-flip s t) at k));
}

-- Equal objects have the same hash, which an unordered map of them relies on.
pub equal-hash :
    (string_hash : List ℕ → ℕ) (a b : CharStruct)
    → equal a b ≡ true
    → hash string_hash a ≡ hash string_hash b
unfolding equal hash
equal-hash string_hash a b e = ap string_hash (eq-strcmp (text a) (text b) (is_null-eq e))

-- `==` says whether two objects have the same text; `<` is the strict total order of the texts, byte
-- by byte, `>` its converse, `<=` is `<` or `==`, and `>=` the converse of that.
pub comparisons-agree :
    (a b : CharStruct)
    → ((equal a b ≡ true) ↔ (text a ≡ text b))
      × (less a b ≡ text_order.lt (text a) (text b))
      × (greater a b ≡ less b a)
      × (less_equal a b ≡ (less a b || equal a b))
      × (greater_equal a b ≡ less_equal b a)
unfolding equal less greater less_equal greater_equal text_order
comparisons-agree a b = (
  ((λ e. eq-strcmp (text a) (text b) (is_null-eq e)), (λ e. rw (e, strcmp-null (text b)) refl)),
  refl,
  rw (strcmp-flip (text a) (text b)) (positive_lem (strcmp (text a) (text b))),
  not_positive_lem (strcmp (text a) (text b)),
  rw (strcmp-flip (text a) (text b)) (not_negative_lem (strcmp (text a) (text b))),
)
