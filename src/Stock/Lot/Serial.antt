-- ===== src/Stock/Lot/Serial.antt =====
-- When the button that makes serial numbers goes through.
use hai_compnay.Common.{
  ℕ, List, [], ◌∷◌, ◌≡◌, ◌≢◌, refl, sym, ◌↔◌, Option, none, some, true, false, Bool-cases, inl, inr,
  Result, ok, err, if◌then◌else◌, filtered, is_nonempty, map, ◌==◌, All, ok-injective, lacks_iff,
  Option-cases, subst, ◌++◌, Bool, arith,
}
use hai_compnay.Common.Decimal.{Text}
use hai_compnay.Stock.Lot.{
  MoveLine, lot_names_of, is_found, existed_lot_names, generate_lot_names_from_existed_serial,
  generate_serial_numbers_from_existed_serial, mem_name, SerialError, field_data_of,
}

-- None of the names is among those that exist.
abbrev pub IsFresh : List Text → List Text → Type 0
IsFresh existed = All (λ name. All (λ other. name ≢ other) existed)

filtered_iff :
    (existed names : List Text)
    → (is_nonempty (filtered (mem_name existed) names) ≡ false) ↔ IsFresh existed names
filtered_iff existed [] = (λ h. tt, λ h. refl)
filtered_iff existed (name ∷ names) = elim (Bool-cases (mem_name existed name)) [
  | inl taken ↦ (
    λ h. absurd_case (rw taken at h),
    λ (h, hs). absurd_case (rw taken at (lacks_iff name existed).1 h),
  )
  | inr free ↦ (
    λ h. ((lacks_iff name existed).0 free, (filtered_iff existed names).0 (rw free at h)),
    λ (h, hs). rw free ((filtered_iff existed names).1 hs),
  )
]
  where
    absurd_case : {P : Type 0} → true ≡ false → P
    absurd_case h = cc

field_data_of_iff :
    (existed : List Text) (made : Option (List Text)) (field_data : List (Text × ℕ))
    → (field_data_of existed made ≡ ok field_data) ↔ (
        (names : List Text) × (made ≡ some names)
        × IsFresh existed names
        × (field_data ≡ map (λ name. (name, 1)) names))
field_data_of_iff existed none field_data = (λ h. cc, λ (names, h, fresh, e). cc)
field_data_of_iff existed (some lot_names) field_data = (
  λ h. elim (Bool-cases (is_nonempty (filtered (mem_name existed) lot_names))) [
    | inl taken ↦ absurd_case (rw taken at h)
    | inr free ↦ (
      lot_names,
      refl,
      (filtered_iff existed lot_names).0 free,
      sym (ok-injective (rw free at h)),
    )
  ],
  λ (names, h, fresh, e).
      let same : lot_names ≡ names = cc in rw (same, (filtered_iff existed names).1 fresh, e) refl,
)
  where
    absurd_case :
        {P : Type 0} {e : SerialError}
        → ◌≡◌ {A = Result SerialError (List (Text × ℕ))} (err e) (ok field_data)
        → P
    absurd_case h = cc

-- No move line of the product that has one of these names is like the pattern of the search.
abbrev pub IsUnseen : (Text → Text → Bool) → List MoveLine → ℕ → Text → List Text → Type 0
IsUnseen like move_lines product next_serial names =
    All
      (λ l.
        (name : Text)
        → l.product_id ≡ product
        → l.lot_name ≡ some name
        → like (next_serial ++ b'%' ∷ []) name ≡ true
        → All (λ made. made ≢ name) names)
      move_lines

module _ (like : Text → Text → Bool) (product : ℕ) (next_serial : Text) where
  -- To differ from every name found is to be unseen.
  IsFresh→one :
      (existed names : List Text) (name : Text)
      → IsFresh (name ∷ existed) names
      → All (λ made. made ≢ name) names
  IsFresh→one existed [] name h = tt
  IsFresh→one existed (made ∷ names) name ((h, _), hs) = (h, IsFresh→one existed names name hs)

  IsFresh→rest :
      (existed names : List Text) (name : Text)
      → IsFresh (name ∷ existed) names
      → IsFresh existed names
  IsFresh→rest existed [] name h = tt
  IsFresh→rest existed (made ∷ names) name ((_, h), hs) = (h, IsFresh→rest existed names name hs)

  IsFresh-cons :
      (existed names : List Text) (name : Text)
      → All (λ made. made ≢ name) names
      → IsFresh existed names
      → IsFresh (name ∷ existed) names
  IsFresh-cons existed [] name h hs = tt
  IsFresh-cons existed (made ∷ names) name (h, hs) (f, fs) =
      ((h, f), IsFresh-cons existed names name hs fs)

  IsFresh-nil : (names : List Text) → IsFresh [] names
  IsFresh-nil [] = tt
  IsFresh-nil (made ∷ names) = (tt, IsFresh-nil names)

  IsFresh-iff :
      (move_lines : List MoveLine) (names : List Text)
      → IsFresh (existed_lot_names like product next_serial move_lines) names
        ↔ IsUnseen like move_lines product next_serial names
  unfolding existed_lot_names
  IsFresh-iff [] names = (λ h. tt, λ h. IsFresh-nil names)
  IsFresh-iff (l ∷ ls) names =
      let rest = lot_names_of (filtered (is_found like product next_serial) ls) in
      let ih = IsFresh-iff ls names in
      elim (Option-cases l.lot_name) [
        | inl unnamed ↦
            let skipped : is_found like product next_serial l ≡ false = rw unnamed (ground arith) in
            (λ h. (λ name same named. cc, ih.0 (rw skipped at h)), λ (h, hs). rw skipped (ih.1 hs))
        | inr (name, named) ↦ elim (Bool-cases (is_found like product next_serial l)) [
          | inl found ↦ (
            λ h.
                let fresh : IsFresh (name ∷ rest) names = rw (found, named) at h in
                (
                  λ name' same named' seen.
                      let e : name ≡ name' = cc in
                      subst (λ t. All (λ made. made ≢ t) names) e
                        (IsFresh→one rest names name fresh),
                  ih.0 (IsFresh→rest rest names name fresh),
                ),
            λ (h, hs).
                let both = is_found_iff l name named found in
                rw (found, named)
                  (IsFresh-cons rest names name (h name both.0 named both.1) (ih.1 hs)),
          )
          | inr other ↦ (
            λ h. (
              λ name' same named' seen. absurd (not_found l name' same named' seen other),
              ih.0 (rw other at h),
            ),
            λ (h, hs). rw other (ih.1 hs),
          )
        ]
      ]
    where
      is_found_iff :
          (l : MoveLine) (name : Text)
          → l.lot_name ≡ some name
          → is_found like product next_serial l ≡ true
          → (l.product_id ≡ product) × (like (next_serial ++ b'%' ∷ []) name ≡ true)
      is_found_iff l name named found = ground (arith, rw named at found)

      not_found :
          (l : MoveLine) (name : Text)
          → l.product_id ≡ product
          → l.lot_name ≡ some name
          → like (next_serial ++ b'%' ∷ []) name ≡ true
          → is_found like product next_serial l ≡ false
          → ⊥
      not_found l name same named seen other = ground (arith, rw (named, seen) at other)

-- The call returns exactly when no move line of the product whose lot name is like the first serial
-- followed by `%` has one of the names of the series, and then it returns one unit of each name; the
-- count is the given one, or where that is zero the move's own.
pub generate_serial_numbers_from_existed_serial_iff :
    (like : Text → Text → Bool) (move_lines : List MoveLine) (product : ℕ) (next_serial : Text)
    (next_serial_count own_count start_from serial_length : ℕ) (field_data : List (Text × ℕ))
    → (generate_serial_numbers_from_existed_serial like move_lines product next_serial
          next_serial_count own_count start_from serial_length
        ≡ ok field_data)
      ↔ ((names : List Text) × (generate_lot_names_from_existed_serial next_serial
              (if next_serial_count == 0 then own_count else next_serial_count)
              start_from
              serial_length
            ≡ some names)
          × IsUnseen like move_lines product next_serial names
          × (field_data ≡ map (λ name. (name, 1)) names))
unfolding generate_serial_numbers_from_existed_serial
generate_serial_numbers_from_existed_serial_iff like move_lines product next_serial
      next_serial_count own_count start_from serial_length field_data =
    let made =
      field_data_of_iff (existed_lot_names like product next_serial move_lines)
        (generate_lot_names_from_existed_serial next_serial
          (if next_serial_count == 0 then own_count else next_serial_count) start_from
          serial_length)
        field_data in
    let unseen = IsFresh-iff like product next_serial move_lines in
    (
      λ h. let (names, e, fresh, built) = made.0 h in (names, e, (unseen names).0 fresh, built),
      λ (names, e, h, built). made.1 (names, e, (unseen names).1 h, built),
    )
