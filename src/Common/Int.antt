-- ===== src/Common/Int.antt =====
-- Signed integers over the native numbers. Quantities and amounts of the source are integers here,
-- counted in the smallest unit of their decimal precision.
use Prim.Native.Nat.{ℕ, suc, ◌+◌, ◌-◌, ◌*◌, ◌≤◌}
use mathlib.Core.Path.{◌≡◌, refl}
use mathlib.Core.Bool.{Bool, true}
use mathlib.Core.List.{List, [], ◌∷◌, ◌++◌}
use mathlib.Core.Logic.{◌↔◌}
use native.Mathlib.Omega.{arith}
use hai_compnay.Common.Tests.{ltb, leb, ◌==◌, if◌then◌else◌}

-- `negsuc n` is -(n + 1).
pub data ℤ : Type 0 where
  pos : ℕ → ℤ
  negsuc : ℕ → ℤ

abbrev pub pos_part : ℤ → ℕ
pos_part (pos n) = n
pos_part (negsuc n) = 0

abbrev pub neg_part : ℤ → ℕ
neg_part (pos n) = 0
neg_part (negsuc n) = suc n

-- a - b, as an integer.
abbrev pub sub_ℕ : ℕ → ℕ → ℤ
sub_ℕ a b = if leb b a then pos (a - b) else negsuc (b - a - 1)

infixl 65 ◌+ℤ◌ ◌-ℤ◌
infixl 70 ◌*ℤ◌
infix 50 ◌≤ℤ◌ ◌<ℤ◌
unfoldable pub ◌+ℤ◌ : ℤ → ℤ → ℤ
a +ℤ b = sub_ℕ (pos_part a + pos_part b) (neg_part a + neg_part b)

unfoldable pub ◌-ℤ◌ : ℤ → ℤ → ℤ
a -ℤ b = sub_ℕ (pos_part a + neg_part b) (neg_part a + pos_part b)

unfoldable pub ◌*ℤ◌ : ℤ → ℤ → ℤ
a *ℤ b =
    sub_ℕ (pos_part a * pos_part b + neg_part a * neg_part b)
      (pos_part a * neg_part b + neg_part a * pos_part b)

-- `abs`
unfoldable pub abs : ℤ → ℤ
abs a = pos (pos_part a + neg_part a)

abbrev pub ◌≤ℤ◌ : ℤ → ℤ → Type 0
a ≤ℤ b = pos_part a + neg_part b ≤ pos_part b + neg_part a

abbrev pub ◌<ℤ◌ : ℤ → ℤ → Type 0
a <ℤ b = suc (pos_part a + neg_part b) ≤ pos_part b + neg_part a

abbrev pub ltb_ℤ : ℤ → ℤ → Bool
ltb_ℤ a b = ltb (pos_part a + neg_part b) (pos_part b + neg_part a)

abbrev pub leb_ℤ : ℤ → ℤ → Bool
leb_ℤ a b = leb (pos_part a + neg_part b) (pos_part b + neg_part a)

abbrev pub eqb_ℤ : ℤ → ℤ → Bool
eqb_ℤ a b = (pos_part a + neg_part b) == (pos_part b + neg_part a)

-- With these the operations can stay shut.
pub +ℤ_parts :
    (a b : ℤ)
    → pos_part (a +ℤ b) + neg_part a + neg_part b ≡ neg_part (a +ℤ b) + pos_part a + pos_part b
unfolding ◌+ℤ◌
+ℤ_parts a b = ground arith

pub -ℤ_parts :
    (a b : ℤ)
    → pos_part (a -ℤ b) + neg_part a + pos_part b ≡ neg_part (a -ℤ b) + pos_part a + neg_part b
unfolding ◌-ℤ◌
-ℤ_parts a b = ground arith

pub eq_of_parts : (a b : ℤ) → pos_part a + neg_part b ≡ pos_part b + neg_part a → a ≡ b
eq_of_parts a b h = ground arith

pub eqb_ℤ_iff : (a b : ℤ) → (eqb_ℤ a b ≡ true) ↔ (a ≡ b)
eqb_ℤ_iff a b = (λ h. ground (arith, eq_of_parts a b), λ h. ground arith)

pub abs_parts : (a : ℤ) → (neg_part (abs a) ≡ 0) × (pos_part (abs a) ≡ pos_part a + neg_part a)
unfolding abs
abs_parts a = (refl, refl)

pub ruleset int_laws = (arith, +ℤ_parts, -ℤ_parts, eq_of_parts)

pub +ℤ-zero : (a : ℤ) → a +ℤ pos 0 ≡ a
+ℤ-zero a = omega int_laws

pub +ℤ_assoc : (a b c : ℤ) → a +ℤ b +ℤ c ≡ a +ℤ (b +ℤ c)
+ℤ_assoc a b c = omega int_laws

-- The sum of a function over a list, as `sum` adds: from 0, left to right.
module _ {ℓ} {A : Type ℓ} where
  abbrev pub sum_from : (A → ℤ) → ℤ → List A → ℤ
  sum_from f acc [] = acc
  sum_from f acc (x ∷ xs) = sum_from f (acc +ℤ f x) xs

  abbrev pub sum_of : (A → ℤ) → List A → ℤ
  sum_of f xs = sum_from f (pos 0) xs

  -- The same sum as a plain recursion.
  abbrev pub total : (A → ℤ) → List A → ℤ
  total f [] = pos 0
  total f (x ∷ xs) = f x +ℤ total f xs

  pub sum_from-eq-total :
      (f : A → ℤ) (acc : ℤ) (xs : List A) → sum_from f acc xs ≡ acc +ℤ total f xs
  sum_from-eq-total f acc [] = omega int_laws
  sum_from-eq-total f acc (x ∷ xs) = rw (sum_from-eq-total f (acc +ℤ f x) xs) (omega int_laws)

  pub sum_of-eq-total : (f : A → ℤ) (xs : List A) → sum_of f xs ≡ total f xs
  sum_of-eq-total f xs = rw (sum_from-eq-total f (pos 0) xs) (omega int_laws)

  pub total-append : (f : A → ℤ) (xs ys : List A) → total f (xs ++ ys) ≡ total f xs +ℤ total f ys
  total-append f [] ys = omega int_laws
  total-append f (x ∷ xs) ys = rw (total-append f xs ys) (omega int_laws)
