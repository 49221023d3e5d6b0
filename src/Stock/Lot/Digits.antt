-- ===== src/Stock/Lot/Digits.antt =====
-- Texts of decimal digits: two of one length with one value are equal, and so a number that was
-- read is printed back when it is filled to its length.
use hai_compnay.Common.{
  ℕ, zero, suc, ◌+◌, ◌-◌, ◌*◌, ◌<◌, ◌≤◌, [], ◌∷◌, ◌≡◌, refl, sym, ◌∙◌, arith, some, true, length,
  is_nonempty,
}
use hai_compnay.Common.Decimal.{Text, is_digit, str, int, scan}
use hai_compnay.Common.Decimal.Length.{ten_to, length-str-le}
use hai_compnay.Common.Decimal.RoundTrip.{IsDigits, str-IsDigits}
use hai_compnay.Stock.Lot.{zeros, zfill}
use hai_compnay.Stock.Lot.Distinct.{scan-zfill, scan_of_int}

digit_bounds : (c : ℕ) → is_digit c ≡ true → (b'0' ≤ c) × (c ≤ b'9')
digit_bounds c h = ground arith

scan-lt :
    (s : Text) (a n j k : ℕ)
    → IsDigits s
    → k ≡ j + length s
    → a < ten_to j
    → scan a s ≡ some n
    → n < ten_to k
scan-lt [] a n j k ds e small h =
    let same : a ≡ n = cc in let at_end : k ≡ j = omega arith in rw (at_end, ← same) small
scan-lt (c ∷ s) a n j k (d, ds) e small h =
    let (low, high) = digit_bounds c d in
    scan-lt s (a * 10 + (c - b'0')) n (suc j) k ds (omega arith) (omega arith) (rw d at h)

longer : {k : ℕ} → 0 ≡ suc k → ⊥
longer e = omega arith

scan-injective :
    (s t : Text) (a b n : ℕ)
    → IsDigits s
    → IsDigits t
    → length s ≡ length t
    → scan a s ≡ some n
    → scan b t ≡ some n
    → (a ≡ b) × (s ≡ t)
scan-injective [] [] a b n ds es l h g = (cc, refl)
scan-injective [] (y ∷ t) a b n ds es l h g = elim (longer l) [ ]
scan-injective (x ∷ s) [] a b n ds es l h g = elim (longer (sym l)) [ ]
scan-injective (x ∷ s) (y ∷ t) a b n (d, ds) (e, es) l h g =
    let (low, high) = digit_bounds x d in
    let (low', high') = digit_bounds y e in
    let (heads, tails) =
      scan-injective s t (a * 10 + (x - b'0')) (b * 10 + (y - b'0')) n ds es (omega arith)
        (rw d at h) (rw e at g) in
    let same : x ≡ y = omega arith in (omega arith, cc)

zeros-IsDigits : (k : ℕ) (s : Text) → IsDigits s → IsDigits (zeros k s)
zeros-IsDigits zero s ds = ds
zeros-IsDigits (suc k) s ds = (refl, zeros-IsDigits k s ds)

length-zeros : (k : ℕ) (s : Text) → length (zeros k s) ≡ k + length s
length-zeros zero s = omega arith
length-zeros (suc k) s = omega (arith, length-zeros k s)

-- `str(int(s)).zfill(len(s)) == s`
pub zfill-str :
    (s : Text) (n : ℕ)
    → IsDigits s
    → is_nonempty s ≡ true
    → int s ≡ some n
    → zfill (length s) (str n) ≡ s
zfill-str [] n ds full h = cc
zfill-str (c ∷ s) n ds full h =
    let short = length-str-le n (length s) (
      scan-lt (c ∷ s) 0 n 0 (suc (length s)) ds (omega arith) (omega arith)
        (scan_of_int (c ∷ s) h)) in
    (scan-injective (zfill (suc (length s)) (str n)) (c ∷ s) 0 0 n
      (zeros-IsDigits (suc (length s) - length (str n)) (str n) (str-IsDigits n)) ds
      (length-zeros (suc (length s) - length (str n)) (str n) ∙ omega arith)
      (scan-zfill (suc (length s)) n) (scan_of_int (c ∷ s) h)).1
