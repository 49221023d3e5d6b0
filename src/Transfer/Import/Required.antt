-- ===== src/Transfer/Import/Required.antt =====
-- Which files pass the check of an import.
use hai_compnay.Common.{
  ℕ, suc, List, [], ◌∷◌, ◌≡◌, refl, ◌↔◌, Bool, true, false, Bool-cases, inl, inr, ok, raise_if,
  is_nonempty, not, ◌&&◌, All, bind-Returns,
}
use hai_compnay.Common.Decimal.{Text}
use hai_compnay.Transfer.Import.{
  Context, is_inter, index_from, cell, starts_request, check_line, check_lines,
  validate_required_field,
}

-- A line that starts a request has both values.
abbrev pub IsComplete : ℕ → ℕ → List Text → Type 0
IsComplete i j mouse =
    starts_request mouse ≡ true
    → ((c : Text) × (cell i mouse ≡ ok c) × (is_nonempty c ≡ true))
      × ((w : Text) × (cell j mouse ≡ ok w) × (is_nonempty w ≡ true))

filled : (E : Type 0) (b : Bool) (e : E) → raise_if (not b) e ≡ ok tt → b ≡ true
filled E true e h = refl
filled E false e h = cc

module _ (company warehouse : Text) (fields : List Text) {i j : ℕ} where
  check_line_iff :
      (n : ℕ) (mouse : List Text)
      → index_from 0 company fields ≡ ok i
      → index_from 0 warehouse fields ≡ ok j
      → (check_line company warehouse fields n mouse ≡ ok tt) ↔ (
          ((c : Text) × (cell i mouse ≡ ok c) × (is_nonempty c ≡ true))
          × ((w : Text) × (cell j mouse ≡ ok w) × (is_nonempty w ≡ true)))
  check_line_iff n mouse at_i at_j = (
    λ h.
        let (c, has_c, h1) = bind-Returns (cell i mouse) _ (rw at_i at h) in
        let (u, full_c, h2) = bind-Returns (raise_if (not (is_nonempty c)) _) _ h1 in
        let (w, has_w, h3) = bind-Returns (cell j mouse) _ (rw at_j at h2) in
        let (v, full_w, h4) = bind-Returns (raise_if (not (is_nonempty w)) _) _ h3 in
        (
          (c, has_c, filled _ (is_nonempty c) _ full_c),
          (w, has_w, filled _ (is_nonempty w) _ full_w),
        ),
    λ ((c, has_c, full_c), (w, has_w, full_w)). rw (at_i, has_c, full_c, at_j, has_w, full_w) refl,
  )

  check_lines_iff :
      (n : ℕ) (data_ : List (List Text))
      → index_from 0 company fields ≡ ok i
      → index_from 0 warehouse fields ≡ ok j
      → (check_lines company warehouse fields n data_ ≡ ok tt) ↔ All (IsComplete i j) data_
  unfolding check_lines
  check_lines_iff n [] at_i at_j = (λ h. tt, λ h. refl)
  check_lines_iff n (mouse ∷ data_) at_i at_j = elim (Bool-cases (starts_request mouse)) [
    | inr further ↦ (
      λ h. (λ starts. cc, (check_lines_iff (suc n) data_ at_i at_j).0 (rw further at h)),
      λ (h, hs). rw further ((check_lines_iff (suc n) data_ at_i at_j).1 hs),
    )
    | inl starts ↦ (
      λ h.
          let (u, first, rest) =
            bind-Returns (check_line company warehouse fields n mouse) _ (rw starts at h) in
          (
            λ _. (check_line_iff n mouse at_i at_j).0 first,
            (check_lines_iff (suc n) data_ at_i at_j).0 rest,
          ),
      λ (h, hs).
          let first = (check_line_iff n mouse at_i at_j).1 (h starts) in
          rw (starts, first) ((check_lines_iff (suc n) data_ at_i at_j).1 hs),
    )
  ]

-- Where the file has the columns of the two fields, at `i` and `j`, an import of requests between
-- companies passes the check exactly when every line that starts a request has a value in both; any
-- other import passes.
pub validate_required_field_iff :
    (context : Context) (company warehouse : Text) (fields : List Text) (i j : ℕ)
    (data_ : List (List Text))
    → index_from 0 company fields ≡ ok i
    → index_from 0 warehouse fields ≡ ok j
    → (validate_required_field context company warehouse fields data_ ≡ ok tt) ↔ (
        (context.import_file && is_inter context.default_transfer_request_type) ≡ true
        → All (IsComplete i j) data_)
unfolding validate_required_field
validate_required_field_iff context company warehouse fields i j data_ at_i at_j =
    elim (Bool-cases (context.import_file && is_inter context.default_transfer_request_type)) [
      | inl between ↦ (
        λ h _. (check_lines_iff company warehouse fields 2 data_ at_i at_j).0 (rw between at h),
        λ h.
            rw between ((check_lines_iff company warehouse fields 2 data_ at_i at_j).1 (h between)),
      )
      | inr other ↦ (λ h between. cc, λ h. rw other refl)
    ]
