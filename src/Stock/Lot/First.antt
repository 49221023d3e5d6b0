-- ===== src/Stock/Lot/First.antt =====
-- The names of a series: how many, that they differ, and that the first is the one given.
use hai_compnay.Common.{
  ℕ, suc, ◌+◌, ◌*◌, ◌-◌, List, [], ◌∷◌, ◌++◌, ◌≡◌, refl, ap, ◌∙◌, arith, some, Bool-cases, inl, inr,
  true, if◌then◌else◌, ◌==◌, length, is_nonempty, any,
}
use hai_compnay.Common.Decimal.{Text, is_digit, int, scan}
use hai_compnay.Common.Decimal.RoundTrip.{IsDigits}
use hai_compnay.Stock.Lot.{
  find_numbers, regex_split, join, init, names_from, name_series, generate_lot_names,
  generate_lot_names_from_existed_serial,
}
use hai_compnay.Stock.Lot.Distinct.{AllDistinct, names_from-AllDistinct, length-names_from}
use hai_compnay.Stock.Lot.Split.{IsNumberOf, HasParts, join-regex_split, regex_split-HasParts}
use hai_compnay.Stock.Lot.Digits.{zfill-str}
use hai_compnay.Stock.Lot.Found.{
  find_numbers-IsNumberOf, find_numbers-any, last_of-nonempty, last_of-empty, join-init,
  last_of-All,
}

scan-digits : (s : Text) (a : ℕ) → IsDigits s → (n : ℕ) × (scan a s ≡ some n)
scan-digits [] a ds = (a, refl)
scan-digits (c ∷ s) a (d, ds) = rw d (scan-digits s (a * 10 + (c - b'0')) ds)

int-digits : (s : Text) → IsDigits s → is_nonempty s ≡ true → (n : ℕ) × (int s ≡ some n)
int-digits [] ds h = cc
int-digits (c ∷ s) ds h = scan-digits (c ∷ s) 0 ds

-- What a series is made of: a number of the text `s`, what stands before and after it, and the
-- length that numbers are filled to.
abbrev pub IsSeriesOf : Text → ℕ → ℕ → ℕ → List Text → Type 0
IsSeriesOf s count start_from serial_length names =
    (prefix : Text) × (suffix : Text) × (number : Text) × (n : ℕ) × IsDigits number
    × (is_nonempty number ≡ true)
    × (int number ≡ some n)
    × (prefix ++ number ++ suffix ≡ s)
    × (names
        ≡ names_from prefix suffix (if serial_length == 0 then length number else serial_length)
            (n + start_from) count)

name_series-IsSeriesOf :
    (s : Text) (count start_from serial_length : ℕ) (number : Text)
    → IsNumberOf s number
    → (names : List Text) × (name_series s count start_from serial_length number ≡ some names)
      × IsSeriesOf s count start_from serial_length names
name_series-IsSeriesOf s count start_from serial_length [] (ds, full, p, q, e) = cc
name_series-IsSeriesOf s count start_from serial_length (c ∷ cs) (ds, full, p, q, e) =
    let number : Text = c ∷ cs in
    let (n, read) = int-digits number ds full in
    let parts : HasParts (regex_split number 0 s) = rw e (regex_split-HasParts c cs p q) in
    let (suffix, last, joined) = join-init number (regex_split number 0 s) parts in
    let prefix = join number (init (regex_split number 0 s)) in
    (
      names_from prefix suffix (if serial_length == 0 then length number else serial_length)
          (n + start_from) count,
      rw (read, last) refl,
      (prefix, suffix, number, n, ds, full, read, joined ∙ join-regex_split c cs 0 s, refl),
    )

-- The text that the series goes on from.
abbrev pub named : Text → Text
named s = if any is_digit s then s else s ++ b'0' ∷ []

any-last : (s : Text) → any is_digit (s ++ b'0' ∷ []) ≡ true
any-last [] = refl
any-last (c ∷ s) = elim (Bool-cases (is_digit c)) [
  | inl digit ↦ rw digit refl
  | inr other ↦ rw other (any-last s)
]

with_number :
    (fuel : ℕ) (s : Text) (count start_from serial_length : ℕ)
    → any is_digit s ≡ true
    → (names : List Text) × (generate_lot_names (suc fuel) s count start_from serial_length
        ≡ some names)
      × IsSeriesOf s count start_from serial_length names
with_number fuel s count start_from serial_length h =
    let (number, found) = last_of-nonempty (find_numbers [] s) (find_numbers-any s ∙ h) in
    let is_number =
      last_of-All (IsNumberOf s) (find_numbers [] s) number (find_numbers-IsNumberOf [] s tt)
        found in
    let (names, made, series) =
      name_series-IsSeriesOf s count start_from serial_length number is_number in
    (names, rw found made, series)

pub generate-IsSeriesOf :
    (s : Text) (count start_from serial_length : ℕ)
    → (names : List Text) × (generate_lot_names_from_existed_serial s count start_from serial_length
        ≡ some names)
      × IsSeriesOf (named s) count start_from serial_length names
unfolding generate_lot_names_from_existed_serial
generate-IsSeriesOf s count start_from serial_length = elim (Bool-cases (any is_digit s)) [
  | inl digit ↦ rw digit (with_number 1 s count start_from serial_length digit)
  | inr further ↦
      let (names, made, series) =
        with_number 0 (s ++ b'0' ∷ []) count start_from serial_length (any-last s) in
      (
        names,
        rw (last_of-empty (find_numbers [] s) (find_numbers-any s ∙ further)) made,
        rw further series,
      )
]

-- A series is always made; it has as many names as asked for, and no two of them are the same.
pub generate_lot_names_from_existed_serial-AllDistinct :
    (first_lot : Text) (count start_from serial_length : ℕ)
    → (names : List Text) × (generate_lot_names_from_existed_serial first_lot count start_from
          serial_length
        ≡ some names)
      × (length names ≡ count)
      × AllDistinct names
generate_lot_names_from_existed_serial-AllDistinct first_lot count start_from serial_length =
    let (names, made, (prefix, suffix, number, n, ds, full, read, e, series)) =
      generate-IsSeriesOf first_lot count start_from serial_length in
    let padding = if serial_length == 0 then length number else serial_length in
    (
      names,
      made,
      rw series (length-names_from prefix suffix padding (n + start_from) count),
      rw series (names_from-AllDistinct prefix suffix padding (n + start_from) count),
    )

-- Without an offset or a length of its own, a series of one name at least begins with the name it
-- was made from, or, where that has no digit, with that name and `0`.
pub generate_lot_names_from_existed_serial-first :
    (first_lot : Text) (count : ℕ)
    → (names : List Text) × (generate_lot_names_from_existed_serial first_lot (suc count) 0 0
        ≡ some ((if any is_digit first_lot then first_lot else first_lot ++ b'0' ∷ []) ∷ names))
generate_lot_names_from_existed_serial-first first_lot count =
    let (names, made, (prefix, suffix, number, n, ds, full, read, e, series)) =
      generate-IsSeriesOf first_lot (suc count) 0 0 in
    let at_start : n + 0 ≡ n = omega arith in
    (
      names_from prefix suffix (length number) (suc n) count,
      made
          ∙ ap some (
              rw (series, at_start, zfill-str number n ds full read)
                (ap (λ t. t ∷ names_from prefix suffix (length number) (suc n) count) e)),
    )
