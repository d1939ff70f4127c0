-- ===== src/CharStruct/Wire.antt =====
-- `CharStruct` in a message: `pack` and `convert`.
use basket.Prelude.{◌≡◌, refl, subst, inl, inr, ℕ, List, some}
use basket.CharStruct.Defs.{c_str, CharStruct, text, size, assign, pack, convert}
use basket.CharStruct.Text.{
  IsArray, IsValid, Stores, of_string-Stores, assign-Stores, stored, take-c_str, text-IsText,
}

-- `convert` makes of the bytes of a message their text up to the first NUL, and writes behind an array
-- if that text has more than 255 bytes.
pub convert-Stores :
    (memory input : CharStruct) (o : List ℕ)
    → IsArray memory
    → IsArray input
    → Stores (convert memory input o) (c_str o)
unfolding convert
convert-Stores memory input o array room = elim (of_string-Stores memory o array) [
  | inl (fits, c, run, valid, held) ↦
      rw run (subst (Stores (assign input c)) held (assign-Stores input c room))
  | inr (long, run) ↦ inr (long, rw run refl)
]

pub pack-text : (c : CharStruct) → pack c ≡ text c
unfolding pack size text
pack-text c = take-c_str c.value

-- What `pack` makes of a valid object, `convert` turns into a valid object with the same text.
pub convert-pack :
    (memory input c : CharStruct)
    → IsArray memory
    → IsArray input
    → IsValid c
    → (new : CharStruct) × (convert memory input (pack c) ≡ some new)
      × IsValid new
      × (text new ≡ text c)
convert-pack memory input c array room valid =
    let same : c_str (pack c) ≡ text c = rw (pack-text c) (text-IsText c) in
    stored (convert memory input (pack c)) (text c) valid.1 (
      subst (Stores (convert memory input (pack c))) same
        (convert-Stores memory input (pack c) array room))
