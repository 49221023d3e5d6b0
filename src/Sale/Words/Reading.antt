-- ===== src/Sale/Words/Reading.antt =====
-- Reading the words back.
use hai_compnay.Common.{
  ℕ, zero, suc, List, [], ◌∷◌, ◌++◌, ◌≡◌, refl, sym, ap, ◌∙◌, arith, Bool, true, false, Bool-cases,
  inl, inr, ok, if◌then◌else◌, ◌==◌, ◌&&◌, ltb, ◌+◌, ◌*◌, ◌/◌, ◌%◌, ◌<◌, ok-injective,
}
use mathlib.Core.List.{append-nil, append_assoc}
use hai_compnay.Sale.Words.{
  Word, unit, khong, muoi_1, muoi, lam, tram, nghin, trieu, ty, tens, powers, convert_part,
  join_reversed,
}

-- What Vietnamese words mean: a digit counts when the next word says how much; `total`, `group` and
-- `digit` are what the words so far have said.
abbrev pub read_from : ℕ → ℕ → ℕ → List Word → ℕ
read_from total group digit [] = total + group + digit
read_from total group digit (unit d ∷ ws) = read_from total group d ws
read_from total group digit (lam ∷ ws) = read_from total group 5 ws
read_from total group digit (khong ∷ ws) = read_from total group 0 ws
read_from total group digit (muoi_1 ∷ ws) = read_from total (group + 10) 0 ws
read_from total group digit (muoi ∷ ws) = read_from total (group + digit * 10) 0 ws
read_from total group digit (tram ∷ ws) = read_from total (group + digit * 100) 0 ws
read_from total group digit (nghin ∷ ws) = read_from (total + (group + digit) * 1000) 0 0 ws
read_from total group digit (trieu ∷ ws) = read_from (total + (group + digit) * 1000000) 0 0 ws
read_from total group digit (ty ∷ ws) = read_from (total + (group + digit) * 1000000000) 0 0 ws

abbrev pub read : List Word → ℕ
read = read_from 0 0 0

-- The words of a part with these digits.
abbrev hundreds_words : ℕ → List Word
hundreds_words hundreds = if ltb 0 hundreds then unit hundreds ∷ tram ∷ [] else []

abbrev tens_words : ℕ → ℕ → List Word
tens_words tens_place units =
    if ltb 0 tens_place
    then (if (tens_place == 1) && ltb 0 units then muoi_1 ∷ [] else tens tens_place)
    else []

abbrev units_words : ℕ → ℕ → List Word
units_words tens_place units =
    if ltb 0 units
    then (if ltb 0 tens_place && (units == 5) then lam ∷ [] else unit units ∷ [])
    else []

some_digit : (n : ℕ) → ltb 0 (suc n) ≡ true
some_digit n = ground arith

not_one : (n : ℕ) → (suc (suc n) == 1) ≡ false
not_one n = ground arith

read-hundreds_words :
    (t h : ℕ) (ws : List Word)
    → read_from t 0 0 (hundreds_words h ++ ws) ≡ read_from t (h * 100) 0 ws
read-hundreds_words t zero ws = refl
read-hundreds_words t (suc h) ws = rw (some_digit h) (ap (λ k. read_from t k 0 ws) (omega arith))

if_same : {A : Type 0} (b : Bool) (x : A) → (if b then x else x) ≡ x
if_same true x = refl
if_same false x = refl

read-tens_words :
    (t g d u : ℕ) (ws : List Word)
    → read_from t g 0 (tens_words d u ++ ws) ≡ read_from t (g + d * 10) 0 ws
read-tens_words t g zero u ws = ap (λ k. read_from t k 0 ws) (omega arith)
read-tens_words t g (suc zero) u ws = rw (if_same (ltb 0 u) (muoi_1 ∷ [])) refl
read-tens_words t g (suc (suc d)) u ws = rw (some_digit (suc d), not_one d) refl

read-units_words :
    (t g d u : ℕ) (ws : List Word) → read_from t g 0 (units_words d u ++ ws) ≡ read_from t g u ws
read-units_words t g d zero ws = refl
read-units_words t g d (suc u) ws = elim (Bool-cases (ltb 0 d && (suc u == 5))) [
  | inl five ↦ let e : suc u ≡ 5 = ground (arith, five) in rw (five, some_digit u, e) refl
  | inr other ↦ rw (other, some_digit u) refl
]

-- A part's words add the part to the group.
pub read-convert_part :
    (t part : ℕ) (ws : List Word)
    → read_from t 0 0 (convert_part part ++ ws)
      ≡ read_from t (part / 100 * 100 + part % 100 / 10 * 10) (part % 100 % 10) ws
unfolding convert_part
read-convert_part t part ws =
    let h = part / 100 in
    let d = part % 100 / 10 in
    let u = part % 100 % 10 in
    ap (read_from t 0 0) (append_assoc (hundreds_words h ++ tens_words d u) (units_words d u) ws)
    ∙ ap (read_from t 0 0)
        (append_assoc (hundreds_words h) (tens_words d u) (units_words d u ++ ws))
    ∙ read-hundreds_words t h (tens_words d u ++ (units_words d u ++ ws))
    ∙ read-tens_words t (h * 100) d u (units_words d u ++ ws)
    ∙ read-units_words t (h * 100 + d * 10) d u ws

digits : (part : ℕ) → part / 100 * 100 + part % 100 / 10 * 10 + part % 100 % 10 ≡ part
digits part = omega arith

-- What a thousand of the round stands for; past the table it is not used.
abbrev pub scale : ℕ → ℕ
scale zero = 1
scale (suc zero) = 1000
scale (suc (suc zero)) = 1000000
scale (suc (suc (suc zero))) = 1000000000
scale (suc (suc (suc (suc i)))) = 1

join_reversed-append :
    (parts : List (List Word)) (p : List Word)
    → join_reversed (parts ++ p ∷ []) ≡ p ++ join_reversed parts
join_reversed-append [] p = sym (append-nil p)
join_reversed-append (q ∷ parts) p =
    rw (join_reversed-append parts p) (append_assoc p (join_reversed parts) q)

-- The words that a round appends, with the power of its place.
pub read-power :
    (i t part : ℕ) (parts : List (List Word)) (power : List Word)
    → 0 < i
    → powers i ≡ ok power
    → read_from t 0 0 (join_reversed (parts ++ (convert_part part ++ power) ∷ []))
      ≡ read_from (t + part * scale i) 0 0 (join_reversed parts)
read-power i t part parts power h found =
    rw
      (
        join_reversed-append parts (convert_part part ++ power),
        append_assoc (convert_part part) power (join_reversed parts),
        read-convert_part t part (power ++ join_reversed parts),
      )
      (go i h found)
  where
    go :
        (i : ℕ)
        → 0 < i
        → powers i ≡ ok power
        → read_from t
            (part / 100 * 100 + part % 100 / 10 * 10)
            (part % 100 % 10)
            (power ++ join_reversed parts)
          ≡ read_from (t + part * scale i) 0 0 (join_reversed parts)
    go zero h found = absurd (omega arith)
    go (suc zero) h found =
        rw (← ok-injective found) (ap (λ k. read_from k 0 0 (join_reversed parts)) (omega arith))
    go (suc (suc zero)) h found =
        rw (← ok-injective found) (ap (λ k. read_from k 0 0 (join_reversed parts)) (omega arith))
    go (suc (suc (suc zero))) h found =
        rw (← ok-injective found) (ap (λ k. read_from k 0 0 (join_reversed parts)) (omega arith))
    go (suc (suc (suc (suc i)))) h found = cc
