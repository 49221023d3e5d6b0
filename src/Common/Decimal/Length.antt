-- ===== src/Common/Decimal/Length.antt =====
-- How many digits a number has.
use Prim.Native.Nat.{ℕ, zero, suc, ◌+◌, ◌*◌, ◌/◌, ◌%◌, ◌<◌, ◌≤◌}
use mathlib.Core.Logic.{inl, inr}
use mathlib.Core.List.{[], ◌∷◌}
use native.Mathlib.Omega.{arith}
use hai_compnay.Common.Tests.{ltb, Bool-cases}
use hai_compnay.Common.Lists.{length, length-append}
use hai_compnay.Common.Decimal.{digits_of, str}

abbrev pub ten_to : ℕ → ℕ
ten_to zero = 1
ten_to (suc k) = ten_to k * 10

length-digits_of : (fuel n k : ℕ) → n < ten_to (suc k) → length (digits_of fuel n) ≤ suc k
unfolding digits_of
length-digits_of zero n k h = omega arith
length-digits_of (suc fuel) n zero h = elim (Bool-cases (ltb n 10)) [
  | inl small ↦ rw small (omega arith)
  | inr large ↦ ground arith
]
length-digits_of (suc fuel) n (suc k) h = elim (Bool-cases (ltb n 10)) [
  | inl small ↦ rw small (omega arith)
  | inr large ↦
      rw (large, length-append (digits_of fuel (n / 10)) ((b'0' + n % 10) ∷ []))
        (omega (arith, length-digits_of fuel (n / 10) k (omega arith)))
]

-- A number below `10 ** k` is printed with `k` digits at most.
pub length-str-le : (n k : ℕ) → n < ten_to (suc k) → length (str n) ≤ suc k
unfolding str
length-str-le n k h = length-digits_of (suc n) n k h
