-- ===== src/Tests/CharRuns.antt =====
-- `CharStruct` with short texts.
use basket.Prelude.{◌≡◌, ◌↔◌, refl, arith, ◌∷◌, ◌++◌, ◌||◌, true, some, codes}
use basket.Config.Defs.{replicate}
use basket.CharStruct.Defs.{
  CharStruct, c_str, text, add, add_string, add_assign, equal, less, less_equal, greater,
  greater_equal, pack, convert,
}
use basket.CharStruct.Text.{IsValid, Stores, add-Stores}
use basket.CharStruct.Wire.{convert-pack}
use basket.CharStruct.Compare.{text_order, comparisons-agree}

-- Memory that happens to be filled with the letter x.
abbrev memory : CharStruct
memory = record { value = replicate 256 120 }

abbrev ab : CharStruct
ab = record { value = codes "ab" ++ 0 ∷ replicate 253 120 }

abbrev ba : CharStruct
ba = record { value = codes "ba" ++ replicate 254 0 }

add-Stores_example :
    Stores (add memory ab ba) (text ab ++ text ba)
    × Stores (add_string memory ab (codes "c")) (text ab ++ c_str (codes "c"))
    × Stores (add_assign ab ba) (text ab ++ text ba)
add-Stores_example = add-Stores memory ab ba (codes "c") refl refl

convert-pack_example :
    (new : CharStruct) × (convert memory ba (pack ab) ≡ some new)
    × IsValid new
    × (text new ≡ codes "ab")
unfolding text c_str
convert-pack_example = convert-pack memory ba ab refl refl (refl, omega arith)

comparisons-agree_example :
    ((equal ab ba ≡ true) ↔ (text ab ≡ text ba))
    × (less ab ba ≡ text_order.lt (text ab) (text ba))
    × (greater ab ba ≡ less ba ab)
    × (less_equal ab ba ≡ (less ab ba || equal ab ba))
    × (greater_equal ab ba ≡ less_equal ba ab)
comparisons-agree_example = comparisons-agree ab ba
