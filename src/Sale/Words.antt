-- ===== src/Sale/Words.antt =====
-- Amounts in Vietnamese words: a1_sale/models/convert_amount_in_words.py, and the same file in
-- a1_purchase. A text is the list of its words, so joining by spaces is appending.
pub mod Range
pub mod Reading
pub mod RoundTrip
use hai_compnay.Common.{
  ℕ, zero, suc, List, [], ◌∷◌, ◌++◌, Bool, true, false, Result, ok, err, ◌>>=◌, if◌then◌else◌, ◌==◌,
  ◌&&◌, ltb, ◌/◌, ◌%◌,
}

-- `unit d` is the word that `units` has for the digit d from 1 to 9; muoi_1 is mười, muoi is mươi.
pub data Word : Type 0 where
  unit : ℕ → Word
  khong muoi_1 muoi lam tram nghin trieu ty : Word

pub data WordError : Type 0 where
  index_error out_of_fuel : WordError

-- The tables `tens` and `powers`; an index past the table raises.
abbrev pub tens : ℕ → List Word
tens zero = []
tens (suc zero) = muoi_1 ∷ []
tens (suc (suc n)) = unit (suc (suc n)) ∷ muoi ∷ []

abbrev pub powers : ℕ → Result WordError (List Word)
powers zero = ok []
powers (suc zero) = ok (nghin ∷ [])
powers (suc (suc zero)) = ok (trieu ∷ [])
powers (suc (suc (suc zero))) = ok (ty ∷ [])
powers (suc (suc (suc (suc n)))) = err index_error

unfoldable pub convert_part : ℕ → List Word
convert_part part =
    let hundreds = part / 100 in
    let tens_place = part % 100 / 10 in
    let units = part % 100 % 10 in
    (if ltb 0 hundreds then unit hundreds ∷ tram ∷ [] else [])
    ++ (if ltb 0 tens_place
        then (if (tens_place == 1) && ltb 0 units then muoi_1 ∷ [] else tens tens_place)
        else [])
    ++ (if ltb 0 units
        then (if ltb 0 tens_place && (units == 5) then lam ∷ [] else unit units ∷ [])
        else [])

-- What a round of the loop of `convert` appends to the parts.
unfoldable pub add_part : ℕ → ℕ → List (List Word) → Result WordError (List (List Word))
add_part unit_index part parts =
    if ltb 0 part
    then (powers unit_index >>= λ power. ok (parts ++ (convert_part part ++ power) ∷ []))
    else ok parts

unfoldable pub convert_loop : ℕ → ℕ → ℕ → List (List Word) → Result WordError (List (List Word))
convert_loop zero number unit_index parts = err out_of_fuel
convert_loop (suc fuel) number unit_index parts =
    if number == 0
    then ok parts
    else (add_part unit_index (number % 1000) parts >>= λ more.
        convert_loop fuel (number / 1000) (suc unit_index) more)

-- `' '.join(reversed(parts))`
abbrev pub join_reversed : List (List Word) → List Word
join_reversed [] = []
join_reversed (p ∷ ps) = join_reversed ps ++ p

unfoldable pub convert : ℕ → Result WordError (List Word)
unfolding convert_loop
convert number =
    if number == 0
    then ok (khong ∷ [])
    else (convert_loop (suc number) number 0 [] >>= λ parts. ok (join_reversed parts))
