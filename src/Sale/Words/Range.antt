-- ===== src/Sale/Words/Range.antt =====
-- Which amounts have words.
use hai_compnay.Common.{
  ℕ, zero, suc, List, [], ◌∷◌, ◌++◌, ◌≡◌, ◌≢◌, refl, ◌↔◌, ◌⊎◌, arith, Bool, true, false, Bool-cases,
  inl, inr, Result, ok, err, ◌>>=◌, if◌then◌else◌, ◌==◌, ltb, ◌/◌, ◌%◌, ◌<◌, bind-Returns,
}
use hai_compnay.Sale.Words.{
  Word, WordError, khong, nghin, trieu, ty, powers, convert_part, add_part, convert_loop,
  join_reversed, convert,
}

-- The numbers for which the powers from `unit_index` on are enough.
abbrev pub limit : ℕ → ℕ
limit zero = 1000000000000
limit (suc zero) = 1000000000
limit (suc (suc zero)) = 1000000
limit (suc (suc (suc zero))) = 1000
limit (suc (suc (suc (suc n)))) = 1

limit_step : (i n : ℕ) → n % 1000 ≡ 0 ⊎ i < 4 → (n / 1000 < limit (suc i)) ↔ (n < limit i)
limit_step zero n h = (λ e. omega arith, λ e. omega arith)
limit_step (suc zero) n h = (λ e. omega arith, λ e. omega arith)
limit_step (suc (suc zero)) n h = (λ e. omega arith, λ e. omega arith)
limit_step (suc (suc (suc zero))) n h = (λ e. omega arith, λ e. omega arith)
limit_step (suc (suc (suc (suc i)))) n h = (λ e. omega (arith, h), λ e. omega arith)

powers_iff : (i : ℕ) → ((power : List Word) × (powers i ≡ ok power)) ↔ (i < 4)
powers_iff zero = (λ h. omega arith, λ h. ([], refl))
powers_iff (suc zero) = (λ h. omega arith, λ h. (nghin ∷ [], refl))
powers_iff (suc (suc zero)) = (λ h. omega arith, λ h. (trieu ∷ [], refl))
powers_iff (suc (suc (suc zero))) = (λ h. omega arith, λ h. (ty ∷ [], refl))
powers_iff (suc (suc (suc (suc i)))) = (λ (power, h). cc, λ h. absurd (omega arith))

add_part_iff :
    (i part : ℕ) (parts : List (List Word))
    → ((more : List (List Word)) × (add_part i part parts ≡ ok more)) ↔ ((part ≡ 0) ⊎ (i < 4))
unfolding add_part
add_part_iff i part parts = elim (Bool-cases (ltb 0 part)) [
  | inr none_ ↦ (λ h. inl (ground (arith, none_)), λ h. (parts, rw none_ refl))
  | inl some_ ↦ (
    λ (more, h).
        let (power, found, rest) = bind-Returns (powers i) _ (rw some_ at h) in
        inr ((powers_iff i).0 (power, found)),
    λ h.
        let within : i < 4 = ground (arith, some_) in
        let (power, found) = (powers_iff i).1 within in
        (parts ++ (convert_part part ++ power) ∷ [], rw (some_, found) refl),
  )
]

pub convert_loop_iff :
    (fuel n i : ℕ) (parts : List (List Word))
    → n < fuel
    → ((all_parts : List (List Word)) × (convert_loop fuel n i parts ≡ ok all_parts))
      ↔ (n < limit i)
unfolding convert_loop
convert_loop_iff zero n i parts h = absurd (omega arith)
convert_loop_iff (suc fuel) n i parts h = elim (Bool-cases (n == 0)) [
  | inl done ↦ (λ r. small i (ground arith), λ r. (parts, rw done refl))
  | inr more_ ↦ (
    λ (all_parts, r).
        let (more, added, rest) = bind-Returns (add_part i (n % 1000) parts) _ (rw more_ at r) in
        let in_table = (add_part_iff i (n % 1000) parts).0 (more, added) in
        (limit_step i n in_table).0
          ((convert_loop_iff fuel (n / 1000) (suc i) more (ground arith)).0 (all_parts, rest)),
    λ r.
        let in_table = in_range i (ground arith) r in
        let (more, added) = (add_part_iff i (n % 1000) parts).1 in_table in
        let (all_parts, rest) =
          (convert_loop_iff fuel (n / 1000) (suc i) more (ground arith)).1
            ((limit_step i n in_table).1 r) in
        (all_parts, rw (more_, added) rest),
  )
]
  where
    small : (i : ℕ) → n ≡ 0 → n < limit i
    small zero e = omega arith
    small (suc zero) e = omega arith
    small (suc (suc zero)) e = omega arith
    small (suc (suc (suc zero))) e = omega arith
    small (suc (suc (suc (suc i)))) e = omega arith

    in_range : (i : ℕ) → n ≢ 0 → n < limit i → (n % 1000 ≡ 0) ⊎ (i < 4)
    in_range zero e r = inr (omega arith)
    in_range (suc zero) e r = inr (omega arith)
    in_range (suc (suc zero)) e r = inr (omega arith)
    in_range (suc (suc (suc zero))) e r = inr (omega arith)
    in_range (suc (suc (suc (suc i)))) e r = absurd (omega arith)

joined_iff :
    (made : Result WordError (List (List Word)))
    → ((words : List Word) × ((made >>= λ parts. ok (join_reversed parts)) ≡ ok words))
      ↔ ((parts : List (List Word)) × (made ≡ ok parts))
joined_iff (ok parts) = (λ r. (parts, refl), λ r. (join_reversed parts, refl))
joined_iff (err e) = (λ (words, r). cc, λ (parts, r). cc)

-- A number has words exactly when it is below 10^12: from there on the table of powers is too short
-- and the method raises.
pub convert_iff :
    (number : ℕ) → ((words : List Word) × (convert number ≡ ok words)) ↔ (number < 1000000000000)
unfolding convert
convert_iff number = go (number == 0) (λ e. ground (arith, e))
  where
    go :
        (is_zero : Bool)
        → (is_zero ≡ true → number ≡ 0)
        → ((words : List Word) × ((if is_zero
                then ok (khong ∷ [])
                else (convert_loop (suc number) number 0 [] >>= λ parts. ok (join_reversed parts)))
              ≡ ok words))
          ↔ (number < 1000000000000)
    go true zero_ = (λ r. omega (arith, zero_ refl), λ r. (khong ∷ [], refl))
    go false zero_ =
        let looped = convert_loop_iff (suc number) number 0 [] (omega arith) in
        let joined = joined_iff (convert_loop (suc number) number 0 []) in
        (λ r. looped.0 (joined.0 r), λ r. joined.1 (looped.1 r))
