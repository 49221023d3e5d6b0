-- ===== src/Stock/Tests/Lots.antt =====
-- The theorems on names of lots, at small inputs.
use hai_compnay.Common.{
  ℕ, Bool, true, false, ◌&&◌, ◌==◌, List, [], ◌∷◌, ◌≡◌, refl, some, ok, err, map, length, ◌↔◌,
}
use hai_compnay.Common.Decimal.{Text, str}
use hai_compnay.Stock.Lot.{
  MoveLine, already_exists, existed_lot_names, generate_lot_names_from_existed_serial,
  generate_serial_numbers_from_existed_serial,
}
use hai_compnay.Stock.Lot.Distinct.{AllDistinct}
use hai_compnay.Stock.Lot.First.{
  generate_lot_names_from_existed_serial-AllDistinct, generate_lot_names_from_existed_serial-first,
}
use hai_compnay.Stock.Lot.Serial.{IsUnseen, generate_serial_numbers_from_existed_serial_iff}

-- "B02-08" and what follows it.
abbrev serial : ℕ → ℕ → Text
serial tens units = b'B' ∷ b'0' ∷ b'2' ∷ b'-' ∷ tens ∷ units ∷ []

series :
    generate_lot_names_from_existed_serial (serial b'0' b'8') 3 0 0
    ≡ some (serial b'0' b'8' ∷ serial b'0' b'9' ∷ serial b'1' b'0' ∷ [])
unfolding generate_lot_names_from_existed_serial str
series = refl

no_digit :
    generate_lot_names_from_existed_serial (b'S' ∷ []) 1 4 2 ≡ some ((b'S' ∷ b'0' ∷ b'4' ∷ []) ∷ [])
unfolding generate_lot_names_from_existed_serial str
no_digit = refl

-- The number stands in the name more than once.
again :
    generate_lot_names_from_existed_serial (b'1' ∷ b'A' ∷ b'1' ∷ b'Z' ∷ []) 1 1 0
    ≡ some ((b'1' ∷ b'A' ∷ b'2' ∷ b'Z' ∷ []) ∷ [])
unfolding generate_lot_names_from_existed_serial str
again = refl

generate_lot_names_from_existed_serial-AllDistinct_example :
    (names : List Text) × (generate_lot_names_from_existed_serial (serial b'0' b'8') 3 0 0
      ≡ some names)
    × (length names ≡ 3)
    × AllDistinct names
generate_lot_names_from_existed_serial-AllDistinct_example =
    generate_lot_names_from_existed_serial-AllDistinct (serial b'0' b'8') 3 0 0

generate_lot_names_from_existed_serial-first_example :
    (names : List Text) × (generate_lot_names_from_existed_serial (serial b'0' b'8') 3 0 0
      ≡ some (serial b'0' b'8' ∷ names))
generate_lot_names_from_existed_serial-first_example =
    generate_lot_names_from_existed_serial-first (serial b'0' b'8') 2

abbrev field_data : List (Text × ℕ)
field_data = (serial b'0' b'8', 1) ∷ (serial b'0' b'9', 1) ∷ []

-- What stands for `like`, for a pattern that ends in `%` and has no other sign: the text begins so.
abbrev begins : Text → Text → Bool
begins [] text = false
begins (p ∷ []) text = true
begins (p ∷ q ∷ ps) [] = false
begins (p ∷ q ∷ ps) (c ∷ text) = (p == c) && begins (q ∷ ps) text

abbrev stored : ℕ → Text → MoveLine
stored product name = record { product_id = product; lot_name = some name }

-- The second name is stored already, but it does not begin with the first.
stored_again :
    generate_serial_numbers_from_existed_serial begins
      (stored 5 (serial b'0' b'9') ∷ [])
      5
      (serial b'0' b'8')
      0
      2
      0
      0
    ≡ ok field_data
unfolding generate_serial_numbers_from_existed_serial generate_lot_names_from_existed_serial
    existed_lot_names str
stored_again = refl

refused :
    generate_serial_numbers_from_existed_serial begins
      (stored 5 (serial b'0' b'8') ∷ [])
      5
      (serial b'0' b'8')
      0
      2
      0
      0
    ≡ err (already_exists (serial b'0' b'8' ∷ []))
unfolding generate_serial_numbers_from_existed_serial generate_lot_names_from_existed_serial
    existed_lot_names str
refused = refl

generate_serial_numbers_from_existed_serial_iff_example :
    let lines = stored 5 (serial b'0' b'9') ∷ stored 6 (serial b'0' b'8') ∷ [] in
    (generate_serial_numbers_from_existed_serial begins lines 5 (serial b'0' b'8') 0 2 0 0
      ≡ ok field_data)
    ↔ ((names : List Text) × (generate_lot_names_from_existed_serial (serial b'0' b'8') 2 0 0
          ≡ some names)
        × IsUnseen begins lines 5 (serial b'0' b'8') names
        × (field_data ≡ map (λ name. (name, 1)) names))
generate_serial_numbers_from_existed_serial_iff_example =
    generate_serial_numbers_from_existed_serial_iff begins
      (stored 5 (serial b'0' b'9') ∷ stored 6 (serial b'0' b'8') ∷ []) 5 (serial b'0' b'8') 0 2 0 0
      field_data
