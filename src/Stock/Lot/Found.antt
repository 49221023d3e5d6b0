-- ===== src/Stock/Lot/Found.antt =====
-- The last number found in a text, and the text before and after it.
use mathlib.Core.List.{append_assoc}
use hai_compnay.Common.{
  List, [], ◌∷◌, ◌++◌, ◌≡◌, refl, none, some, Bool-cases, inl, inr, true, false, All, All-append,
  is_nonempty, any,
}
use hai_compnay.Common.Decimal.{Text, is_digit}
use hai_compnay.Common.Decimal.RoundTrip.{IsDigits}
use hai_compnay.Stock.Lot.{keep, find_numbers, last_of, join, init}
use hai_compnay.Stock.Lot.Split.{IsNumberOf, HasParts}

module _ (P : Text → Type 0) where
  keep-All :
      (run : Text) (ns : List Text)
      → (is_nonempty run ≡ true → P run)
      → All P ns
      → All P (keep run ns)
  keep-All [] ns p ps = ps
  keep-All (c ∷ run) ns p ps = (p refl, ps)

  All-mono : (Q : Text → Type 0) (ns : List Text) → ((n : Text) → P n → Q n) → All P ns → All Q ns
  All-mono Q [] f ps = tt
  All-mono Q (n ∷ ns) f (p, ps) = (f n p, All-mono Q ns f ps)

  pub last_of-All : (ns : List Text) (n : Text) → All P ns → last_of ns ≡ some n → P n
  last_of-All [] n ps h = cc
  last_of-All (x ∷ []) n (p, ps) h = let same : x ≡ n = cc in rw (← same) p
  last_of-All (x ∷ y ∷ ns) n (p, ps) h = last_of-All (y ∷ ns) n ps h

pub find_numbers-IsNumberOf :
    (run s : Text) → IsDigits run → All (IsNumberOf (run ++ s)) (find_numbers run s)
unfolding find_numbers
find_numbers-IsNumberOf run [] ds =
    keep-All (IsNumberOf (run ++ [])) run [] (λ full. (ds, full, [], [], refl)) tt
find_numbers-IsNumberOf run (c ∷ s) ds = elim (Bool-cases (is_digit c)) [
  | inl digit ↦
      rw (digit, ← append_assoc run (c ∷ []) s)
        (find_numbers-IsNumberOf (run ++ c ∷ []) s
          (All-append (λ d. is_digit d ≡ true) run (c ∷ []) ds (digit, tt)))
  | inr other ↦ rw other (
      keep-All (IsNumberOf (run ++ c ∷ s)) run (find_numbers [] s)
        (λ full. (ds, full, [], c ∷ s, refl))
        (All-mono (IsNumberOf s) (IsNumberOf (run ++ c ∷ s)) (find_numbers [] s) later
          (find_numbers-IsNumberOf [] s tt)))
]
  where
    later : (n : Text) → IsNumberOf s n → IsNumberOf (run ++ c ∷ s) n
    later n (digits, full, p, q, e) = (
      digits,
      full,
      run ++ c ∷ p,
      q,
      rw (e, append_assoc run (c ∷ p) n, append_assoc run (c ∷ p ++ n) q) refl,
    )

keep-nonempty :
    (run : Text) (ns : List Text) → is_nonempty ns ≡ true → is_nonempty (keep run ns) ≡ true
keep-nonempty [] ns h = h
keep-nonempty (c ∷ run) ns h = refl

find_numbers-run : (run s : Text) → is_nonempty run ≡ true → is_nonempty (find_numbers run s) ≡ true
unfolding find_numbers
find_numbers-run [] s h = cc
find_numbers-run (r ∷ run) [] h = refl
find_numbers-run (r ∷ run) (c ∷ s) h = elim (Bool-cases (is_digit c)) [
  | inl digit ↦ rw digit (find_numbers-run (r ∷ run ++ c ∷ []) s refl)
  | inr other ↦ rw other refl
]

-- A number is found exactly where there is a digit.
pub find_numbers-any : (s : Text) → is_nonempty (find_numbers [] s) ≡ any is_digit s
unfolding find_numbers
find_numbers-any [] = refl
find_numbers-any (c ∷ s) = elim (Bool-cases (is_digit c)) [
  | inl digit ↦ rw digit (find_numbers-run (c ∷ []) s refl)
  | inr other ↦ rw other (find_numbers-any s)
]

pub last_of-nonempty :
    {A : Type 0} (xs : List A) → is_nonempty xs ≡ true → (x : A) × (last_of xs ≡ some x)
last_of-nonempty [] h = cc
last_of-nonempty (x ∷ []) h = (x, refl)
last_of-nonempty (x ∷ y ∷ xs) h = last_of-nonempty (y ∷ xs) refl

pub last_of-empty : (xs : List Text) → is_nonempty xs ≡ false → last_of xs ≡ none
last_of-empty [] h = refl
last_of-empty (x ∷ xs) h = cc

-- The first parts joined, then the separator and the last part, are all parts joined.
pub join-init :
    (sep : Text) (parts : List Text)
    → HasParts parts
    → (l : Text) × (last_of parts ≡ some l) × (join sep (init parts) ++ sep ++ l ≡ join sep parts)
join-init sep [] (t, u, ts, e) = cc
join-init sep (t ∷ []) (u, v, ts, e) = cc
join-init sep (t ∷ u ∷ []) h = (u, refl, refl)
join-init sep (t ∷ u ∷ v ∷ ts) h =
    let (l, last, e) = join-init sep (u ∷ v ∷ ts) (u, v, ts, refl) in
    (
      l,
      last,
      rw
          (
            append_assoc (t ++ sep) (join sep (init (u ∷ v ∷ ts))) sep,
            append_assoc (t ++ sep) (join sep (init (u ∷ v ∷ ts)) ++ sep) l,
            e,
          )
          refl,
    )
