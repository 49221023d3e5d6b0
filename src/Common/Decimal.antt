-- ===== src/Common/Decimal.antt =====
-- `str(n)` and `int(s)` on numbers without a sign and `s.split(c)`, on texts as lists of code
-- points. `int` is given here on texts of decimal digits alone; `none` is the `ValueError`.
pub mod RoundTrip
pub mod Length
use Prim.Native.Nat.{ℕ, zero, suc, ◌+◌, ◌-◌, ◌*◌, ◌/◌, ◌%◌}
use mathlib.Core.Bool.{Bool, true, false, ◌&&◌}
use mathlib.Core.List.{List, [], ◌∷◌, ◌++◌}
use mathlib.Core.Option.{Option, none, some}
use hai_compnay.Common.Tests.{ltb, leb, ◌==◌, if◌then◌else◌}

-- A text, by its code points.
abbrev pub Text : Type 0
Text = List ℕ

-- The digits of `n`, with fuel above `n`.
pub digits_of : ℕ → ℕ → Text
digits_of zero n = []
digits_of (suc fuel) n =
    let front = digits_of fuel (n / 10) in
    if ltb n 10 then (b'0' + n) ∷ [] else front ++ (b'0' + n % 10) ∷ []

unfoldable pub str : ℕ → Text
unfolding digits_of
str n = digits_of (suc n) n

abbrev pub is_digit : ℕ → Bool
is_digit c = leb b'0' c && leb c b'9'

abbrev pub scan : ℕ → Text → Option ℕ
scan acc [] = some acc
scan acc (c ∷ s) = if is_digit c then scan (acc * 10 + (c - b'0')) s else none

abbrev pub int : Text → Option ℕ
int [] = none
int (c ∷ s) = scan 0 (c ∷ s)

abbrev cons_head : ℕ → List Text → List Text
cons_head x [] = (x ∷ []) ∷ []
cons_head x (s ∷ ss) = (x ∷ s) ∷ ss

abbrev pub split : ℕ → Text → List Text
split c [] = [] ∷ []
split c (x ∷ xs) = if x == c then [] ∷ split c xs else cons_head x (split c xs)
