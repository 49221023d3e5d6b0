-- ===== src/Common/Lists.antt =====
-- Lists, measured by native numbers, and the comprehensions and tests of the source over them.
use Prim.Native.Nat.{ℕ, suc, ◌+◌, ◌≤◌}
use mathlib.Core.Path.{◌≡◌, refl, ap}
use mathlib.Core.Bool.{Bool, true, false, ◌&&◌, ◌||◌}
use mathlib.Core.List.{List, [], ◌∷◌, ◌++◌, map}
use native.Mathlib.Omega.{arith}
use mathlib.Core.Logic.{◌≢◌, ◌↔◌, inl, inr}
use hai_compnay.Common.Tests.{if◌then◌else◌, codes_beq, codes_beq_iff, Bool-cases}

module _ {ℓ} {A : Type ℓ} where
  abbrev pub length : List A → ℕ
  length [] = 0
  length (x ∷ xs) = suc (length xs)

  pub length-append : (xs ys : List A) → length (xs ++ ys) ≡ length xs + length ys
  length-append [] ys = omega arith
  length-append (x ∷ xs) ys = omega (arith, length-append xs ys)

  -- `recordset.filtered(p)`, `[x for x in xs if p(x)]`
  abbrev pub filtered : (A → Bool) → List A → List A
  filtered p [] = []
  filtered p (x ∷ xs) = if p x then x ∷ filtered p xs else filtered p xs

  -- `all(p(x) for x in xs)` and `any(p(x) for x in xs)`
  abbrev pub all : (A → Bool) → List A → Bool
  all p [] = true
  all p (x ∷ xs) = p x && all p xs

  abbrev pub any : (A → Bool) → List A → Bool
  any p [] = false
  any p (x ∷ xs) = p x || any p xs

  -- The truth value of a list or a recordset.
  abbrev pub is_nonempty : List A → Bool
  is_nonempty [] = false
  is_nonempty (x ∷ xs) = true

  abbrev pub All {κ} : (A → Type κ) → List A → Type κ
  All P [] = Unit
  All P (x ∷ xs) = P x × All P xs

  pub All-append {κ} : (P : A → Type κ) (xs ys : List A) → All P xs → All P ys → All P (xs ++ ys)
  All-append P [] ys p q = q
  All-append P (x ∷ xs) ys (p, ps) q = (p, All-append P xs ys ps q)

  pub filtered-append :
      (p : A → Bool) (xs ys : List A) → filtered p (xs ++ ys) ≡ filtered p xs ++ filtered p ys
  filtered-append p [] ys = refl
  filtered-append p (x ∷ xs) ys = ground (arith, filtered-append p xs ys)

  pub filtered-congr :
      (p q : A → Bool) (xs : List A) → ((x : A) → p x ≡ q x) → filtered p xs ≡ filtered q xs
  filtered-congr p q [] h = refl
  filtered-congr p q (x ∷ xs) h = rw (h x, filtered-congr p q xs h)

  -- Filtering twice is filtering by both tests.
  pub filtered-filtered :
      (p q : A → Bool) (xs : List A) → filtered q (filtered p xs) ≡ filtered (λ x. p x && q x) xs
  filtered-filtered p q [] = refl
  filtered-filtered p q (x ∷ xs) = ground (arith, filtered-filtered p q xs)

  pub All-filtered : (p : A → Bool) (xs : List A) → All (λ x. p x ≡ true) (filtered p xs)
  All-filtered p [] = tt
  All-filtered p (x ∷ xs) = ground (arith, All-filtered p xs)

  pub length-filtered-le : (p : A → Bool) (xs : List A) → length (filtered p xs) ≤ length xs
  length-filtered-le p [] = omega arith
  length-filtered-le p (x ∷ xs) = ground (arith, length-filtered-le p xs)

pub length-map {ℓ κ} :
    {A : Type ℓ} {B : Type κ} (f : A → B) (xs : List A) → length (map f xs) ≡ length xs
length-map f [] = refl
length-map f (x ∷ xs) = ap suc (length-map f xs)

-- Two lists of one length, related place by place.
abbrev pub All₂ {ℓ κ} : {A : Type ℓ} {B : Type κ} → (A → B → Type 0) → List A → List B → Type 0
All₂ R [] [] = Unit
All₂ R (x ∷ xs) (y ∷ ys) = R x y × All₂ R xs ys
All₂ R _ _ = ⊥

-- A text is not in a list exactly when it differs from all in it.
pub lacks_iff :
    (code : List ℕ) (existing : List (List ℕ))
    → (any (codes_beq code) existing ≡ false) ↔ All (λ other. code ≢ other) existing
lacks_iff code [] = (λ h. tt, λ h. refl)
lacks_iff code (t ∷ ts) = elim (Bool-cases (codes_beq code t)) [
  | inl same ↦ (λ h. ground arith, λ (h, hs). absurd (h ((codes_beq_iff code t).0 same)))
  | inr other ↦ (
    λ h. (λ e. ground (arith, (codes_beq_iff code t).1 e), (lacks_iff code ts).0 (ground arith)),
    λ (h, hs). rw other ((lacks_iff code ts).1 hs),
  )
]
