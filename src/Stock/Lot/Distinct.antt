-- ===== src/Stock/Lot/Distinct.antt =====
-- The names of a series are as many as asked for, and differ.
use mathlib.Core.List.{append_cancel_left, append_cancel_right}
use hai_compnay.Common.{
  ℕ, zero, suc, ◌-◌, ◌<◌, List, [], ◌∷◌, ◌++◌, ◌≡◌, ◌≢◌, refl, sym, ap, ◌∙◌, arith, some, length,
  All,
}
use hai_compnay.Common.Decimal.{Text, str, int, scan}
use hai_compnay.Common.Decimal.RoundTrip.{int-str}
use hai_compnay.Stock.Lot.{zeros, zfill, lot_name, names_from}

scan-zeros : (k : ℕ) (s : Text) → scan 0 (zeros k s) ≡ scan 0 s
scan-zeros zero s = refl
scan-zeros (suc k) s = scan-zeros k s

pub scan_of_int : (s : Text) {n : ℕ} → int s ≡ some n → scan 0 s ≡ some n
scan_of_int [] h = cc
scan_of_int (c ∷ s) h = h

-- Filling with zeros keeps the number.
pub scan-zfill : (padding n : ℕ) → scan 0 (zfill padding (str n)) ≡ some n
scan-zfill padding n =
    scan-zeros (padding - length (str n)) (str n) ∙ scan_of_int (str n) (int-str n)

pub lot_name-injective :
    (prefix suffix : Text) (padding m n : ℕ)
    → lot_name prefix suffix padding m ≡ lot_name prefix suffix padding n
    → m ≡ n
lot_name-injective prefix suffix padding m n e =
    let x = zfill padding (str m) in
    let y = zfill padding (str n) in
    let same =
      append_cancel_left prefix x y (append_cancel_right (prefix ++ x) (prefix ++ y) suffix e) in
    let read = sym (scan-zfill padding m) ∙ ap (scan 0) same ∙ scan-zfill padding n in cc

abbrev pub AllDistinct {ℓ} : {A : Type ℓ} → List A → Type ℓ
AllDistinct [] = Unit
AllDistinct (x ∷ xs) = All (λ y. x ≢ y) xs × AllDistinct xs

module _ (prefix suffix : Text) (padding : ℕ) where
  names_from-others :
      (m n count : ℕ)
      → m < n
      → All (λ y. lot_name prefix suffix padding m ≢ y) (names_from prefix suffix padding n count)
  names_from-others m n zero h = tt
  names_from-others m n (suc count) h = (
    λ e. let same = lot_name-injective prefix suffix padding m n e in omega arith,
    names_from-others m (suc n) count (omega arith),
  )

  pub names_from-AllDistinct :
      (n count : ℕ) → AllDistinct (names_from prefix suffix padding n count)
  names_from-AllDistinct n zero = tt
  names_from-AllDistinct n (suc count) =
      (names_from-others n (suc n) count (omega arith), names_from-AllDistinct (suc n) count)

  pub length-names_from : (n count : ℕ) → length (names_from prefix suffix padding n count) ≡ count
  length-names_from n zero = refl
  length-names_from n (suc count) = ap suc (length-names_from (suc n) count)
