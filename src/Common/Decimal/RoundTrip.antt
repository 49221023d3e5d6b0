-- ===== src/Common/Decimal/RoundTrip.antt =====
-- What was printed is read back, and a separator that no part holds splits a text at its place.
use Prim.Native.Nat.{ℕ, zero, suc, ◌+◌, ◌/◌, ◌%◌, ◌<◌}
use mathlib.Core.Path.{◌≡◌, sym, ap, refl, ◌∙◌}
use mathlib.Core.Logic.{inl, inr}
use mathlib.Core.Bool.{true, false}
use mathlib.Core.List.{[], ◌∷◌, ◌++◌, append-nil, append_assoc}
use mathlib.Core.Option.{some-injective, some}
use native.Mathlib.Omega.{arith}
use hai_compnay.Common.Tests.{ltb, ◌==◌, Bool-cases}
use hai_compnay.Common.Lists.{All, All-append}
use hai_compnay.Common.Decimal.{Text, digits_of, str, is_digit, scan, int, split}

abbrev pub IsDigits : Text → Type 0
IsDigits = All (λ c. is_digit c ≡ true)

digits_of-IsDigits : (fuel n : ℕ) → IsDigits (digits_of fuel n)
unfolding digits_of
digits_of-IsDigits zero n = tt
digits_of-IsDigits (suc fuel) n = elim (Bool-cases (ltb n 10)) [
  | inl small ↦ rw small (ground arith, tt)
  | inr large ↦ rw large (
      All-append (λ c. is_digit c ≡ true) (digits_of fuel (n / 10)) ((b'0' + n % 10) ∷ [])
        (digits_of-IsDigits fuel (n / 10)) (ground arith, tt))
]

pub str-IsDigits : (n : ℕ) → IsDigits (str n)
unfolding str
str-IsDigits n = digits_of-IsDigits (suc n) n

scan-digits_of :
    (fuel n : ℕ) (rest : Text) → n < fuel → scan 0 (digits_of fuel n ++ rest) ≡ scan n rest
unfolding digits_of
scan-digits_of zero n rest h = elim h [ ]
scan-digits_of (suc fuel) n rest h = elim (Bool-cases (ltb n 10)) [
  | inl small ↦ rw small (ground arith)
  | inr large ↦
      rw
        (
          large,
          append_assoc (digits_of fuel (n / 10)) ((b'0' + n % 10) ∷ []) rest,
          scan-digits_of fuel (n / 10) ((b'0' + n % 10) ∷ rest) (ground arith),
        )
        (ground arith)
]

-- `int` reads a text that `scan` reads, if it is not empty.
int_of_scan : (s : Text) {n : ℕ} → scan 0 s ≡ some (suc n) → int s ≡ some (suc n)
int_of_scan [] h = cc
int_of_scan (c ∷ s) h = h

digits_of-cons : (fuel n : ℕ) → int (digits_of (suc fuel) n) ≡ scan 0 (digits_of (suc fuel) n)
unfolding digits_of
digits_of-cons fuel n = elim (Bool-cases (ltb n 10)) [
  | inl small ↦ rw small refl
  | inr large ↦ rw large (int_append (digits_of fuel (n / 10)) (b'0' + n % 10))
]
  where
    int_append : (s : Text) (c : ℕ) → int (s ++ c ∷ []) ≡ scan 0 (s ++ c ∷ [])
    int_append [] c = refl
    int_append (x ∷ s) c = refl

-- `int(str(n)) == n`
pub int-str : (n : ℕ) → int (str n) ≡ some n
unfolding str
int-str n =
    digits_of-cons n n
    ∙ rw (← append-nil (digits_of (suc n) n)) (scan-digits_of (suc n) n [] (omega arith))

pub str-injective : (m n : ℕ) → str m ≡ str n → m ≡ n
str-injective m n e = some-injective _ _ (sym (int-str m) ∙ ap int e ∙ int-str n)

abbrev Lacks : ℕ → Text → Type 0
Lacks c = All (λ x. (x == c) ≡ false)

digits-Lacks : (c : ℕ) (s : Text) → is_digit c ≡ false → IsDigits s → Lacks c s
digits-Lacks c [] h ds = tt
digits-Lacks c (x ∷ s) h (d, ds) = (ground arith, digits-Lacks c s h ds)

split-append : (c : ℕ) (s rest : Text) → Lacks c s → split c (s ++ c ∷ rest) ≡ s ∷ split c rest
split-append c [] rest h = ground arith
split-append c (x ∷ s) rest (d, ds) = rw (d, split-append c s rest ds)

split-Lacks : (c : ℕ) (s : Text) → Lacks c s → split c s ≡ s ∷ []
split-Lacks c [] h = refl
split-Lacks c (x ∷ s) (d, ds) = rw (d, split-Lacks c s ds)

-- Three printed numbers joined by a separator that is no digit are split into the three texts.
pub split-join :
    (c i j k : ℕ)
    → is_digit c ≡ false
    → split c (str i ++ c ∷ (str j ++ c ∷ str k)) ≡ str i ∷ str j ∷ str k ∷ []
split-join c i j k h =
    rw
      (
        split-append c (str i) (str j ++ c ∷ str k) (digits-Lacks c (str i) h (str-IsDigits i)),
        split-append c (str j) (str k) (digits-Lacks c (str j) h (str-IsDigits j)),
        split-Lacks c (str k) (digits-Lacks c (str k) h (str-IsDigits k)),
      )
      refl

pub str_digit : (d : ℕ) → d < 10 → str d ≡ (b'0' + d) ∷ []
unfolding str digits_of
str_digit d h = ground arith
