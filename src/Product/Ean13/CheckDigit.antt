-- ===== src/Product/Ean13/CheckDigit.antt =====
-- The check digit that `generate_ean13` adds.
use hai_compnay.Common.{
  ℕ, List, [], ◌∷◌, ◌++◌, ◌+◌, ◌-◌, ◌*◌, ◌%◌, ◌<◌, ◌≡◌, refl, ◌∙◌, ap, ◌↔◌, arith, ok, traverse,
  map, All,
}
use hai_compnay.Common.Decimal.{str}
use hai_compnay.Common.Decimal.RoundTrip.{str_digit}
use hai_compnay.Product.Ean13.{int_of, sum_at, generate_ean13}

-- The character of a digit.
abbrev pub digit : ℕ → ℕ
digit d = b'0' + d

abbrev pub IsDigit : ℕ → Type 0
IsDigit d = d < 10

int_of-digit : (d : ℕ) → IsDigit d → int_of (digit d) ≡ ok d
int_of-digit d h = ground arith

traverse-digit : (ds : List ℕ) → All IsDigit ds → traverse int_of (map digit ds) ≡ ok ds
traverse-digit [] h = refl
traverse-digit (d ∷ ds) (h, hs) = rw (int_of-digit d h, traverse-digit ds hs) refl

-- The digits with the weights that the source gives them, from the left: 3, 1, 3, 1 and so on.
abbrev pub weighted : List ℕ → ℕ
weighted [] = 0
weighted (a ∷ []) = 3 * a
weighted (a ∷ b ∷ ds) = 3 * a + b + weighted ds

-- The digits with the weights of an EAN-13 code: 1, 3, 1, 3 and so on.
abbrev pub ean_weighted : List ℕ → ℕ
ean_weighted [] = 0
ean_weighted (a ∷ []) = a
ean_weighted (a ∷ b ∷ ds) = a + 3 * b + ean_weighted ds

-- The digits at the places 0, 2, 4 and so on, added up, and those at the others.
abbrev pub sum_odd_positions : List ℕ → ℕ
sum_odd_positions [] = 0
sum_odd_positions (a ∷ []) = a
sum_odd_positions (a ∷ b ∷ ds) = a + sum_odd_positions ds

abbrev pub sum_even_positions : List ℕ → ℕ
sum_even_positions [] = 0
sum_even_positions (a ∷ []) = 0
sum_even_positions (a ∷ b ∷ ds) = b + sum_even_positions ds

-- Bar codes are made from twelve digits.
abbrev pub twelve : ℕ → ℕ → ℕ → ℕ → ℕ → ℕ → ℕ → ℕ → ℕ → ℕ → ℕ → ℕ → List ℕ
twelve a b c d e f g h i j k l = a ∷ b ∷ c ∷ d ∷ e ∷ f ∷ g ∷ h ∷ i ∷ j ∷ k ∷ l ∷ []

abbrev check_digit : List ℕ → ℕ
check_digit ds = (10 - (sum_odd_positions ds * 3 + sum_even_positions ds) % 10) % 10

generate_twelve :
    (a b c d e f g h i j k l : ℕ)
    → let ds = twelve a b c d e f g h i j k l in
      All IsDigit ds → generate_ean13 (map digit ds) ≡ ok (map digit ds ++ str (check_digit ds))
unfolding generate_ean13 sum_at
generate_twelve a b c d e f g h i j k l digits =
    let ds = twelve a b c d e f g h i j k l in
    let same : (10 - ((0 + a + c + e + g + i + k) * 3 + (0 + b + d + f + h + j + l)) % 10) % 10
        ≡ check_digit ds =
      omega arith in
    rw (traverse-digit ds digits) (ap (λ n. ok (map digit ds ++ str n)) same)

weighted_parts : (ds : List ℕ) → weighted ds ≡ 3 * sum_odd_positions ds + sum_even_positions ds
weighted_parts [] = refl
weighted_parts (a ∷ []) = omega arith
weighted_parts (a ∷ b ∷ ds) = omega (arith, weighted_parts ds)

check_digit_lem :
    (odd even : ℕ)
    → let check = (10 - (odd * 3 + even) % 10) % 10 in
      (check < 10)
      × ((3 * odd + even + check) % 10 ≡ 0)
      × (((odd + 3 * even + check) % 10 ≡ 0) ↔ (odd % 5 ≡ even % 5))
check_digit_lem odd even = (omega arith, omega arith, (λ h. omega arith, λ h. omega arith))

-- On twelve digits the code is those digits and a check digit, with which the sum in the source's
-- weights is divisible by 10. It is divisible by 10 in the weights of an EAN-13 code exactly when
-- the digits at the odd and at the even positions have sums that leave the same remainder by 5.
pub generate_ean13_lem :
    (a b c d e f g h i j k l : ℕ)
    → let ds = twelve a b c d e f g h i j k l in
      All IsDigit ds
      → (check : ℕ) × (generate_ean13 (map digit ds) ≡ ok (map digit (ds ++ check ∷ [])))
        × IsDigit check
        × ((weighted ds + check) % 10 ≡ 0)
        × ((ean_weighted (ds ++ check ∷ []) % 10 ≡ 0)
            ↔ (sum_odd_positions ds % 5 ≡ sum_even_positions ds % 5))
generate_ean13_lem a b c d e f g h i j k l digits =
    let ds = twelve a b c d e f g h i j k l in
    let (small, sound, standard) = check_digit_lem (sum_odd_positions ds) (sum_even_positions ds) in
    let ean : ean_weighted (ds ++ check_digit ds ∷ [])
        ≡ sum_odd_positions ds + 3 * sum_even_positions ds + check_digit ds =
      omega arith in
    (
      check_digit ds,
      generate_twelve a b c d e f g h i j k l digits
          ∙ ap (λ t. ok (map digit ds ++ t)) (str_digit (check_digit ds) small),
      small,
      rw (weighted_parts ds) sound,
      rw ean standard,
    )
