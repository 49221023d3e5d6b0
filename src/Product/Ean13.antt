-- ===== src/Product/Ean13.antt =====
-- Bar codes: `generate_ean13` of a1_product/models/product_product.py.
pub mod CheckDigit
use hai_compnay.Common.{
  ℕ, zero, suc, List, [], ◌∷◌, ◌++◌, ◌+◌, ◌-◌, ◌*◌, ◌%◌, Option, none, some, Result, ok, err, ◌>>=◌,
  traverse,
}
use hai_compnay.Common.Decimal.{Text, int, str}

pub data Error : Type 0 where
  value_error index_error : Error

abbrev pub or_raise {ℓ} : {A : Type ℓ} → Option A → Error → Result Error A
or_raise none e = err e
or_raise (some a) e = ok a

abbrev pub nth : List ℕ → ℕ → Option ℕ
nth [] i = none
nth (d ∷ ds) zero = some d
nth (d ∷ ds) (suc i) = nth ds i

-- `sum(digits[i] for i in indices)`
unfoldable pub sum_at : List ℕ → ℕ → List ℕ → Result Error ℕ
sum_at digits acc [] = ok acc
sum_at digits acc (i ∷ is) = or_raise (nth digits i) index_error >>= λ d. sum_at digits (acc + d) is

abbrev pub int_of : ℕ → Result Error ℕ
int_of c = or_raise (int (c ∷ [])) value_error

unfoldable pub generate_ean13 : Text → Result Error Text
unfolding sum_at
generate_ean13 barcode = do
  digits ← traverse int_of barcode
  odd_positions ← sum_at digits 0 (0 ∷ 2 ∷ 4 ∷ 6 ∷ 8 ∷ 10 ∷ [])
  sum_even_positions ← sum_at digits 0 (1 ∷ 3 ∷ 5 ∷ 7 ∷ 9 ∷ 11 ∷ [])
  ok (barcode ++ str ((10 - (odd_positions * 3 + sum_even_positions) % 10) % 10))
