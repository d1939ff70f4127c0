-- ===== src/CharStruct/Defs.antt =====
-- The constructors and the operators of `CharStruct` (include/basket/common/data_structures.h). A `char`
-- is a number below 256. `none` is a write behind the array, which the code does not guard against.
use basket.Prelude.{
  ℕ, zero, suc, Bool, true, false, if◌then◌else◌, ◌==◌, ltb, not, List, [], ◌∷◌, ◌++◌, Option, none,
  some, length, take, drop, ◌>>=◌, codes,
}

-- The text that starts at a `const char*`: the bytes before the first NUL.
unfoldable pub c_str : List ℕ → List ℕ
c_str [] = []
c_str (c ∷ cs) = let rest = c_str cs in if c == 0 then [] else c ∷ rest

pub record CharStruct : Type 0 where
  pub value : List ℕ

-- `strcpy(value, s)`, for the bytes of `s` before its NUL.
unfoldable pub strcpy : CharStruct → List ℕ → Option CharStruct
strcpy c s =
    if ltb (length s) (length c.value)
    then some (record { value = s ++ 0 ∷ drop (suc (length s)) c.value })
    else none

-- `snprintf(value, n, "%s", data_)`: at most `n - 1` bytes and a NUL, and nothing for `n = 0`.
unfoldable pub snprintf : CharStruct → ℕ → List ℕ → Option CharStruct
unfolding strcpy c_str
snprintf c zero data_ = some c
snprintf c (suc n) data_ = strcpy c (take n (c_str data_))

-- `std::string(value)`
unfoldable pub text : CharStruct → List ℕ
unfolding c_str
text c = c_str c.value

-- `strlen(value)`
unfoldable pub size : CharStruct → ℕ
unfolding text
size c = length (text c)

-- `CharStruct(const char*)`, in the memory that the new object gets.
unfoldable pub of_chars : CharStruct → List ℕ → Option CharStruct
unfolding snprintf c_str
of_chars memory data_ = snprintf memory (suc (length (c_str data_))) data_

-- `CharStruct(std::string)`, which passes the `c_str()` of the string on.
unfoldable pub of_string : CharStruct → List ℕ → Option CharStruct
unfolding of_chars
of_string memory data_ = of_chars memory data_

-- `CharStruct(char*, size_t)`
unfoldable pub of_data : CharStruct → List ℕ → ℕ → Option CharStruct
unfolding snprintf
of_data memory data_ size = snprintf memory size data_

-- `Set(std::string)`
unfoldable pub set_string : CharStruct → List ℕ → Option CharStruct
unfolding snprintf
set_string c data_ = snprintf c (suc (length data_)) data_

-- The copy and the move constructor.
unfoldable pub copy : CharStruct → CharStruct → Option CharStruct
unfolding of_chars
copy memory other = of_chars memory other.value

-- `operator=`
unfoldable pub assign : CharStruct → CharStruct → Option CharStruct
unfolding strcpy text
assign c other = strcpy c (text other)

-- `operator+`, for a second text and for a `std::string`.
unfoldable pub add : CharStruct → CharStruct → CharStruct → Option CharStruct
unfolding of_string text
add memory a b = of_string memory (text a ++ text b)

unfoldable pub add_string : CharStruct → CharStruct → List ℕ → Option CharStruct
unfolding of_string text
add_string memory a b = of_string memory (text a ++ b)

-- `operator+=`
unfoldable pub add_assign : CharStruct → CharStruct → Option CharStruct
unfolding set_string text
add_assign a b = set_string a (text a ++ text b)

-- What `strcmp` says: the sign of its result.
pub data Sign : Type 0 where
  negative null positive : Sign

unfoldable pub strcmp : List ℕ → List ℕ → Sign
strcmp [] [] = null
strcmp [] (b ∷ t) = negative
strcmp (a ∷ s) [] = positive
strcmp (a ∷ s) (b ∷ t) =
    let rest = strcmp s t in if ltb a b then negative else if ltb b a then positive else rest

abbrev pub is_negative : Sign → Bool
is_negative negative = true
is_negative null = false
is_negative positive = false

abbrev pub is_null : Sign → Bool
is_null negative = false
is_null null = true
is_null positive = false

abbrev pub is_positive : Sign → Bool
is_positive negative = false
is_positive null = false
is_positive positive = true

-- `operator==`, `<`, `<=`, `>` and `>=`
unfoldable pub equal : CharStruct → CharStruct → Bool
unfolding strcmp text
equal a b = is_null (strcmp (text a) (text b))

unfoldable pub less : CharStruct → CharStruct → Bool
unfolding strcmp text
less a b = is_negative (strcmp (text a) (text b))

unfoldable pub less_equal : CharStruct → CharStruct → Bool
unfolding strcmp text
less_equal a b = not (is_positive (strcmp (text a) (text b)))

unfoldable pub greater : CharStruct → CharStruct → Bool
unfolding strcmp text
greater a b = is_positive (strcmp (text a) (text b))

unfoldable pub greater_equal : CharStruct → CharStruct → Bool
unfolding strcmp text
greater_equal a b = not (is_negative (strcmp (text a) (text b)))

-- `pack<CharStruct>`: the body of the message.
unfoldable pub pack : CharStruct → List ℕ
unfolding size
pack c = take (size c) c.value

-- `convert<CharStruct>`: a temporary of the bytes received, assigned to the value.
unfoldable pub convert : CharStruct → CharStruct → List ℕ → Option CharStruct
unfolding of_string assign
convert memory input o = of_string memory o >>= λ c. assign input c

-- `object_with_zone<CharStruct>`: the body of the message.
unfoldable pub object_with_zone : CharStruct → List ℕ
unfolding size
object_with_zone c = take (size c) c.value

-- `std::hash<CharStruct>`, by that of `std::string`.
unfoldable pub hash : (List ℕ → ℕ) → CharStruct → ℕ
unfolding text
hash string_hash k = string_hash (text k)

-- `Set(char*, size_t)`
unfoldable pub set_data : CharStruct → List ℕ → ℕ → Option CharStruct
unfolding snprintf
set_data c data_ size = snprintf c (suc size) data_

-- What `<<` prints of a text, of a pair and of a vector, with what it prints of their parts.
unfoldable pub print : CharStruct → List ℕ
unfolding text
print m = codes "{TYPE:CharStruct,value:" ++ text m ++ codes "}"

unfoldable pub print_pair {ℓ κ} :
    {T : Type ℓ} {O : Type κ} → (T → List ℕ) → (O → List ℕ) → T × O → List ℕ
print_pair first second m =
    codes "{TYPE:pair,first:" ++ first m.0 ++ codes ",second:" ++ second m.1 ++ codes "}"

unfoldable pub print_each {ℓ} : {T : Type ℓ} → (T → List ℕ) → List T → List ℕ
print_each one [] = []
print_each one (m ∷ ms) = one m ++ codes "," ++ print_each one ms

unfoldable pub print_vector {ℓ} : {T : Type ℓ} → (T → List ℕ) → List T → List ℕ
unfolding print_each
print_vector one ms = codes "[" ++ print_each one ms ++ codes "]"
