-- ===== src/Stock/Lot.antt =====
-- Names of lots: a1_stock/models/stock_lot.py, and `_generate_serial_numbers_from_existed_serial` of
-- a1_stock/models/stock_move.py. The digits that `\d` matches are here the ten of ASCII.
pub mod Distinct
pub mod Serial
pub mod Found
pub mod First
pub mod Digits
pub mod Split
use hai_compnay.Common.{
  ℕ, zero, suc, ◌+◌, ◌-◌, List, [], ◌∷◌, ◌++◌, map, Option, none, some, Bool, true, false, ◌&&◌,
  Result, ok, err, ◌>>◌, raise_if, if◌then◌else◌, filtered, any, is_nonempty, ◌==◌, codes_beq,
  length,
}
use hai_compnay.Common.Decimal.{Text, is_digit, int, str}

abbrev pub keep : Text → List Text → List Text
keep [] numbers = numbers
keep (c ∷ cs) numbers = (c ∷ cs) ∷ numbers

-- `regex_findall(r"\d+", s)`, where `run` is the number being read.
unfoldable pub find_numbers : Text → Text → List Text
find_numbers run [] = keep run []
find_numbers run (c ∷ s) =
    let next = find_numbers (if is_digit c then run ++ c ∷ [] else []) s in
    if is_digit c then next else keep run next

-- `caught_initial_number[-1]`
abbrev pub last_of {ℓ} : {A : Type ℓ} → List A → Option A
last_of [] = none
last_of (x ∷ []) = some x
last_of (x ∷ y ∷ xs) = last_of (y ∷ xs)

abbrev pub starts_with : Text → Text → Bool
starts_with [] s = true
starts_with (c ∷ cs) [] = false
starts_with (c ∷ cs) (d ∷ s) = (c == d) && starts_with cs s

abbrev pub cons_head : ℕ → List Text → List Text
cons_head x [] = (x ∷ []) ∷ []
cons_head x (s ∷ ss) = (x ∷ s) ∷ ss

-- `regex_split(sep, s)` for a text `sep` of digits: the parts between the occurrences that do not
-- overlap, from the left. `skip` characters are left of an occurrence.
unfoldable pub regex_split : Text → ℕ → Text → List Text
regex_split sep skip [] = [] ∷ []
regex_split sep (suc skip) (x ∷ s) = regex_split sep skip s
regex_split sep zero (x ∷ s) =
    let found = starts_with sep (x ∷ s) in
    let next = regex_split sep (if found then length sep - 1 else 0) s in
    if found then [] ∷ next else cons_head x next

-- `sep.join(parts)`
abbrev pub join : Text → List Text → Text
join sep [] = []
join sep (t ∷ []) = t
join sep (t ∷ u ∷ ts) = t ++ sep ++ join sep (u ∷ ts)

-- `splitted[:-1]`
abbrev pub init : List Text → List Text
init [] = []
init (t ∷ []) = []
init (t ∷ u ∷ ts) = t ∷ init (u ∷ ts)

abbrev pub zeros : ℕ → Text → Text
zeros zero s = s
zeros (suc n) s = b'0' ∷ zeros n s

-- `s.zfill(padding)` for a text without a sign
abbrev pub zfill : ℕ → Text → Text
zfill padding s = zeros (padding - length s) s

abbrev pub lot_name : Text → Text → ℕ → ℕ → Text
lot_name prefix suffix padding n = prefix ++ zfill padding (str n) ++ suffix

-- The names of `count` numbers, from `n` on.
abbrev pub names_from : Text → Text → ℕ → ℕ → ℕ → List Text
names_from prefix suffix padding n zero = []
names_from prefix suffix padding n (suc count) =
    lot_name prefix suffix padding n ∷ names_from prefix suffix padding (suc n) count

-- What follows once the last number of the name is found; `none` is the `ValueError` of `int`.
abbrev pub name_series : Text → ℕ → ℕ → ℕ → Text → Option (List Text)
name_series first_lot count start_from serial_length initial_number = go (int initial_number)
  where
    go : Option ℕ → Option (List Text)
    go none = none
    go (some n) =
        let padding = if serial_length == 0 then length initial_number else serial_length in
        let splitted = regex_split initial_number 0 first_lot in
        let prefix = join initial_number (init splitted) in
        let suffix = last_or_empty (last_of splitted) in
        some (names_from prefix suffix padding (n + start_from) count)
      where
        last_or_empty : Option Text → Text
        last_or_empty none = []
        last_or_empty (some t) = t

abbrev series_or :
    Option (List Text) → (Text → Option (List Text)) → Option Text → Option (List Text)
series_or again found none = again
series_or again found (some number) = found number

-- With fuel for the depth of the calls of itself; `serial_length` 0 is also `False`.
abbrev pub generate_lot_names : ℕ → Text → ℕ → ℕ → ℕ → Option (List Text)
generate_lot_names zero first_lot count start_from serial_length = none
generate_lot_names (suc fuel) first_lot count start_from serial_length =
    series_or (generate_lot_names fuel (first_lot ++ b'0' ∷ []) count start_from serial_length)
      (name_series first_lot count start_from serial_length) (last_of (find_numbers [] first_lot))

-- `generate_lot_names_from_existed_serial`, which calls itself once at most.
unfoldable pub generate_lot_names_from_existed_serial : Text → ℕ → ℕ → ℕ → Option (List Text)
unfolding find_numbers regex_split
generate_lot_names_from_existed_serial = generate_lot_names 2

pub data SerialError : Type 0 where
  already_exists : List Text → SerialError
  no_names : SerialError

abbrev pub mem_name : List Text → Text → Bool
mem_name existed name = any (codes_beq name) existed

-- What follows once the names are made: duplicates are refused.
abbrev pub field_data_of : List Text → Option (List Text) → Result SerialError (List (Text × ℕ))
field_data_of existed none = err no_names
field_data_of existed (some lot_names) =
    let duplicate_lot_name = filtered (mem_name existed) lot_names in
    raise_if (is_nonempty duplicate_lot_name) (already_exists duplicate_lot_name)
    >> ok (map (λ lot_name. (lot_name, 1)) lot_names)

-- A move line of the database; `none` is an empty lot name.
pub record MoveLine : Type 0 where
  pub product_id : ℕ
  pub lot_name : Option Text

abbrev pub add_name : Option Text → List Text → List Text
add_name none names = names
add_name (some name) names = name ∷ names

-- `mapped('lot_name')`
abbrev pub lot_names_of : List MoveLine → List Text
lot_names_of [] = []
lot_names_of (l ∷ ls) = add_name l.lot_name (lot_names_of ls)

-- Odoo's operator `like`: a pattern, and a text.
module _ (like : Text → Text → Bool) where
  abbrev pub is_found : ℕ → Text → MoveLine → Bool
  is_found product next_serial l = l.product_id == product && go l.lot_name
    where
      go : Option Text → Bool
      go none = false
      go (some name) = like (next_serial ++ b'%' ∷ []) name

  -- The search for the names that exist.
  unfoldable pub existed_lot_names : ℕ → Text → List MoveLine → List Text
  existed_lot_names product next_serial move_lines =
      lot_names_of (filtered (is_found product next_serial) move_lines)

  -- `_generate_serial_numbers_from_existed_serial` for a move of this product, up to the values of the
  -- move lines, which Odoo makes from them; `move_lines` are all of the database.
  unfoldable pub generate_serial_numbers_from_existed_serial :
      List MoveLine → ℕ → Text → ℕ → ℕ → ℕ → ℕ → Result SerialError (List (Text × ℕ))
  generate_serial_numbers_from_existed_serial move_lines product next_serial next_serial_count
        own_count start_from serial_length =
      let count = if next_serial_count == 0 then own_count else next_serial_count in
      field_data_of (existed_lot_names product next_serial move_lines)
        (generate_lot_names_from_existed_serial next_serial count start_from serial_length)
