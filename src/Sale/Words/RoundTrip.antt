-- ===== src/Sale/Words/RoundTrip.antt =====
-- The words of a number, read back.
use hai_compnay.Common.{
  ℕ, zero, suc, List, [], ◌∷◌, ◌≡◌, ◌≢◌, refl, sym, ap, ◌∙◌, arith, Bool, true, false, Bool-cases,
  inl, inr, ok, ◌>>=◌, if◌then◌else◌, ◌==◌, ltb, ◌+◌, ◌*◌, ◌/◌, ◌%◌, ◌<◌, bind-Returns,
  ok-injective,
}
use hai_compnay.Sale.Words.{Word, khong, powers, add_part, convert_loop, join_reversed, convert}
use hai_compnay.Sale.Words.Range.{limit, convert_loop_iff}
use hai_compnay.Sale.Words.Reading.{read_from, read, scale, read-power, read-convert_part}

scale_step :
    (i n : ℕ) → n < limit i → n ≢ 0 → n / 1000 * scale (suc i) + n % 1000 * scale i ≡ n * scale i
scale_step zero n h some_ = omega arith
scale_step (suc zero) n h some_ = omega arith
scale_step (suc (suc zero)) n h some_ = omega arith
scale_step (suc (suc (suc zero))) n h some_ = omega arith
scale_step (suc (suc (suc (suc i)))) n h some_ = absurd (omega arith)

read-add_part :
    (i t part : ℕ) (parts more : List (List Word))
    → 0 < i
    → add_part i part parts ≡ ok more
    → read_from t 0 0 (join_reversed more)
      ≡ read_from (t + part * scale i) 0 0 (join_reversed parts)
unfolding add_part
read-add_part i t part parts more h added = elim (Bool-cases (ltb 0 part)) [
  | inl some_ ↦
      let (power, found, made) = bind-Returns (powers i) _ (rw some_ at added) in
      rw (← ok-injective made) (read-power i t part parts power h found)
  | inr none_ ↦
      let made : ok parts ≡ ok more = rw none_ at added in
      let zero_ : t + part * scale i ≡ t = nothing part (ground (arith, none_)) in
      rw (← ok-injective made, zero_) refl
]
  where
    nothing : (part : ℕ) → part ≡ 0 → t + part * scale i ≡ t
    nothing part e = rw e (omega arith)

no_scale : (n s : ℕ) → n ≡ 0 → n * s ≡ 0
no_scale n s e = rw e (omega arith)

in_next : (i n : ℕ) → n < limit i → n ≢ 0 → n / 1000 < limit (suc i)
in_next zero n h some_ = omega arith
in_next (suc zero) n h some_ = omega arith
in_next (suc (suc zero)) n h some_ = omega arith
in_next (suc (suc (suc zero))) n h some_ = omega arith
in_next (suc (suc (suc (suc i)))) n h some_ = absurd (omega arith)

read-convert_loop :
    (fuel n i : ℕ) (parts all_parts : List (List Word))
    → 0 < i
    → n < fuel
    → n < limit i
    → convert_loop fuel n i parts ≡ ok all_parts
    → read_from 0 0 0 (join_reversed all_parts) ≡ read_from (n * scale i) 0 0 (join_reversed parts)
unfolding convert_loop
read-convert_loop zero n i parts all_parts h f l made = absurd (omega arith)
read-convert_loop (suc fuel) n i parts all_parts h f l made = elim (Bool-cases (n == 0)) [
  | inl done ↦
      let e : n ≡ 0 = ground (arith, done) in
      let same : parts ≡ all_parts = ok-injective (rw done at made) in
      rw (no_scale n (scale i) e, same) refl
  | inr more_ ↦
      let (more, added, rest) = bind-Returns (add_part i (n % 1000) parts) _ (rw more_ at made) in
      read-convert_loop fuel (n / 1000) (suc i) more all_parts (omega arith) (ground arith)
        (in_next i n l (ground (arith, more_))) rest
      ∙ read-add_part i (n / 1000 * scale (suc i)) (n % 1000) parts more h added
      ∙ ap (λ k. read_from k 0 0 (join_reversed parts)) (scale_step i n l (ground (arith, more_)))
]

part_total :
    (t part : ℕ) → t + (part / 100 * 100 + part % 100 / 10 * 10) + part % 100 % 10 ≡ t + part
part_total t part = omega arith

-- The first round has no power: its words are the last.
read-first :
    (t part : ℕ) (more : List (List Word))
    → add_part 0 part [] ≡ ok more
    → read_from t 0 0 (join_reversed more) ≡ t + part
unfolding add_part
read-first t part more added = elim (Bool-cases (ltb 0 part)) [
  | inl some_ ↦
      let made = ok-injective (rw some_ at added) in
      rw (← made) (read-convert_part t part [] ∙ part_total t part)
  | inr none_ ↦
      let zero_ : part ≡ 0 = ground (arith, none_) in
      let made = ok-injective (rw none_ at added) in rw (← made, zero_) (omega arith)
]

read-rounds :
    (number : ℕ) (parts : List (List Word))
    → number < 1000000000000
    → number ≢ 0
    → convert_loop (suc number) number 0 [] ≡ ok parts
    → read (join_reversed parts) ≡ number
unfolding convert_loop
read-rounds number parts h some_ made =
    let positive : (number == 0) ≡ false = ground (arith, some_) in
    let (more, added, rest) =
      bind-Returns (add_part 0 (number % 1000) []) _ (rw positive at made) in
    read-convert_loop number (number / 1000) 1 more parts (omega arith) (omega arith) (omega arith)
      rest
    ∙ read-first (number / 1000 * 1000) (number % 1000) more added
    ∙ omega arith

-- Every number below 10^12 has words, and reading them gives the number back.
pub convert-read :
    (number : ℕ)
    → number < 1000000000000
    → (words : List Word) × (convert number ≡ ok words) × (read words ≡ number)
unfolding convert
convert-read number h = go (number == 0) (λ e. ground (arith, e)) (λ e. ground (arith, e))
  where
    go :
        (is_zero : Bool)
        → (is_zero ≡ true → number ≡ 0)
        → (is_zero ≡ false → number ≢ 0)
        → (words : List Word) × ((if is_zero
              then ok (khong ∷ [])
              else (convert_loop (suc number) number 0 [] >>= λ parts. ok (join_reversed parts)))
            ≡ ok words)
          × (read words ≡ number)
    go true zero_ some_ = (khong ∷ [], refl, sym (zero_ refl))
    go false zero_ some_ =
        let (parts, made) = (convert_loop_iff (suc number) number 0 [] (omega arith)).1 h in
        (join_reversed parts, rw made refl, read-rounds number parts h (some_ refl) made)
