-- ===== src/Common/Dict.antt =====
-- A Python dict in insertion order, as an association list, and the loops that build one.
pub mod Group
use Prim.Native.Nat.{ℕ, ◌+◌}
use mathlib.Core.Path.{◌≡◌, refl}
use mathlib.Core.Logic.{◌⊎◌, inl, inr}
use mathlib.Core.Bool.{Bool, true, false}
use mathlib.Core.List.{List, [], ◌∷◌, ◌++◌}
use mathlib.Core.Option.{Option, none, some}
use native.Mathlib.Omega.{arith}
use hai_compnay.Common.Tests.{Key, if◌then◌else◌, Bool-cases}

abbrev pub Dict {ℓ κ} : Type ℓ → Type κ → Type (ℓ ⊔ κ)
Dict K V = List (K × V)

abbrev pub get_or {ℓ} : {V : Type ℓ} → Option V → V → V
get_or none z = z
get_or (some v) z = v

module _ {ℓ κ} {K : Type ℓ} {V : Type κ} ⦃e : Key K⦄ where
  abbrev pub lookup : K → Dict K V → Option V
  lookup k [] = none
  lookup k ((j, v) ∷ d) = if e.same j k then some v else lookup k d

  -- `d[k] = f(d.get(k, z))`: a new key goes to the end.
  abbrev pub modify : K → (V → V) → V → Dict K V → Dict K V
  modify k f z [] = (k, f z) ∷ []
  modify k f z ((j, v) ∷ d) = if e.same j k then (j, f v) ∷ d else (j, v) ∷ modify k f z d

  -- No key is listed twice.
  abbrev pub IsDict : Dict K V → Type κ
  IsDict [] = Unit
  IsDict ((j, v) ∷ d) = (lookup j d ≡ none) × IsDict d

  pub lookup-modify :
      (j k : K) (f : V → V) (z : V) (d : Dict K V)
      → lookup j (modify k f z d)
        ≡ (if e.same k j then some (f (get_or (lookup j d) z)) else lookup j d)
  lookup-modify j k f z [] = ground arith
  lookup-modify j k f z ((i, v) ∷ d) =
      ground (arith, e.same_iff k j, e.same_iff i k, e.same_iff i j, lookup-modify j k f z d)

  pub modify-IsDict :
      (k : K) (f : V → V) (z : V) (d : Dict K V) → IsDict d → IsDict (modify k f z d)
  modify-IsDict k f z [] h = (refl, tt)
  modify-IsDict k f z ((i, v) ∷ d) h =
      ground
        (arith, e.same_iff i k, e.same_iff k i, lookup-modify i k f z d, modify-IsDict k f z d h.1)
