-- ===== src/Product/Tests.antt =====
-- The theorems on products at small inputs.
use hai_compnay.Common.{
  ℕ, List, [], ◌∷◌, ◌++◌, map, ◌≡◌, refl, ◌↔◌, arith, ok, err, none, some, All, All₂, ◌+◌, ◌%◌,
  true, false, Bool,
}
use hai_compnay.Common.Decimal.{Text, str}
use hai_compnay.Product.Ean13.{generate_ean13}
use hai_compnay.Product.Ean13.CheckDigit.{
  digit, IsDigit, twelve, weighted, ean_weighted, sum_odd_positions, sum_even_positions,
  generate_ean13_lem,
}
use hai_compnay.Product.DefaultCode.{
  Product, Row, already_existed, check_unique_default_code, sorted, is_configured, join,
  code_or_default, get_default_code, generate_default_code,
}
use hai_compnay.Product.DefaultCode.Names.{HasOneValue, names_of, get_default_code_iff}
use hai_compnay.Product.DefaultCode.Unique.{IsGiven, generate_default_code_iff}

abbrev digits : List ℕ
digits = twelve 4 0 0 6 3 8 1 3 3 3 9 3

generate_ean13_lem_example :
    (check : ℕ) × (generate_ean13 (map digit digits) ≡ ok (map digit (digits ++ check ∷ [])))
    × IsDigit check
    × ((weighted digits + check) % 10 ≡ 0)
    × ((ean_weighted (digits ++ check ∷ []) % 10 ≡ 0)
        ↔ (sum_odd_positions digits % 5 ≡ sum_even_positions digits % 5))
generate_ean13_lem_example = generate_ean13_lem 4 0 0 6 3 8 1 3 3 3 9 3 (
  omega arith,
  (
    omega arith,
    (
      omega arith,
      (
        omega arith,
        (
          omega arith,
          (
            omega arith,
            (
              omega arith,
              (omega arith, (omega arith, (omega arith, (omega arith, (omega arith, tt))))),
            ),
          ),
        ),
      ),
    ),
  ),
)

-- The code 4006381333931 is a correct EAN-13; the program gives another check digit.
pen : generate_ean13 (map digit digits) ≡ ok (map digit (digits ++ 7 ∷ []))
unfolding generate_ean13 str
pen = refl

abbrev red : Text
red = b'R' ∷ b'e' ∷ b' ' ∷ b'd' ∷ []

abbrev size : Text
size = b'X' ∷ b'L' ∷ []

abbrev shirt : ℕ → Bool → Product
shirt id consu = record {
  id = id;
  is_consu = consu;
  x_attribute_config_ids =
      record { product_attribute_id = 2; attribute_name = b'S' ∷ []; sequence = 20 }
      ∷ record { product_attribute_id = 1; attribute_name = b'C' ∷ []; sequence = 10 }
      ∷ [];
  product_template_attribute_value_ids =
      record { attribute_id = 2; attribute_name = b'S' ∷ []; name = size }
      ∷ record { attribute_id = 1; attribute_name = b'C' ∷ []; name = red }
      ∷ [];
  default_code = [];
}

-- "Red-XL"
abbrev red_xl : Text
red_xl = b'R' ∷ b'e' ∷ b'd' ∷ b'-' ∷ b'X' ∷ b'L' ∷ []

get_default_code_iff_example :
    let values = (shirt 7 true).product_template_attribute_value_ids in
    let configs = (shirt 7 true).x_attribute_config_ids in
    (get_default_code false (shirt 7 true) ≡ ok red_xl) ↔ (
      All (HasOneValue values) (sorted configs)
      × All (λ v. is_configured configs v ≡ true) values
      × (red_xl ≡ code_or_default 7 (join b'-' (names_of values (sorted configs)))))
get_default_code_iff_example = get_default_code_iff (shirt 7 true) red_xl

shirt_code : get_default_code false (shirt 7 true) ≡ ok red_xl
unfolding get_default_code
shirt_code = refl

-- The table when two products are made, which stand in it already, without codes.
abbrev rows : List Row
rows =
    record { id = 3; default_code = some size }
    ∷ record { id = 7; default_code = none }
    ∷ record { id = 8; default_code = none }
    ∷ []

abbrev coded : ℕ → Product
coded id = record (shirt id true) { default_code = red_xl }

-- Two products of one call can get the same code.
twins :
    generate_default_code false true rows (shirt 7 true ∷ shirt 8 true ∷ shirt 9 false ∷ [])
    ≡ ok (coded 7 ∷ coded 8 ∷ shirt 9 false ∷ [])
unfolding generate_default_code get_default_code
twins = refl

taken :
    generate_default_code false true
      (record { id = 3; default_code = some red_xl } ∷ [])
      (shirt 7 true ∷ [])
    ≡ err (already_existed red_xl)
unfolding generate_default_code get_default_code
taken = refl

-- Outside `create` no row is left out of the comparison.
checked :
    check_unique_default_code false
      (record { id = 7; default_code = some red_xl } ∷ [])
      (coded 7 ∷ [])
    ≡ err (already_existed red_xl)
unfolding check_unique_default_code
checked = refl

generate_default_code_iff_example :
    (generate_default_code false true rows (shirt 7 true ∷ shirt 9 false ∷ [])
      ≡ ok (coded 7 ∷ shirt 9 false ∷ []))
    ↔ All₂
        (IsGiven (7 ∷ 9 ∷ []) rows)
        (shirt 7 true ∷ shirt 9 false ∷ [])
        (coded 7 ∷ shirt 9 false ∷ [])
generate_default_code_iff_example =
    generate_default_code_iff rows (shirt 7 true ∷ shirt 9 false ∷ [])
      (coded 7 ∷ shirt 9 false ∷ [])
