-- ===== src/Common/Dict/Group.antt =====
-- Grouping by a key: the `defaultdict` loops of the source, and what the groups hold.
use mathlib.Core.Path.{◌≡◌, refl, ap}
use mathlib.Core.Logic.{inl, inr}
use mathlib.Core.List.{List, [], ◌∷◌, ◌++◌, map, append-nil, append_assoc}
use mathlib.Core.Option.{none}
use native.Mathlib.Omega.{arith}
use hai_compnay.Common.Tests.{Key, Bool-cases, if◌then◌else◌}
use hai_compnay.Common.Lists.{filtered, All, All-append}
use hai_compnay.Common.Int.{ℤ, pos, ◌+ℤ◌, total, total-append, int_laws}
use hai_compnay.Common.Dict.{Dict, get_or, lookup, modify, IsDict, lookup-modify, modify-IsDict}

module _ {ℓ κ} {A : Type ℓ} {K : Type κ} ⦃e : Key K⦄ (key : A → K) where
  -- `for x in xs: d[key(x)] += val(x)`, on a `defaultdict(float)`
  abbrev pub accumulate : (A → ℤ) → Dict K ℤ → List A → Dict K ℤ
  accumulate val d [] = d
  accumulate val d (x ∷ xs) = accumulate val (modify (key x) (λ v. v +ℤ val x) (pos 0) d) xs

  -- `for x in xs: d[key(x)].append(val(x))`, on a `defaultdict(list)`
  abbrev pub append_by {μ} : {V : Type μ} → (A → V) → Dict K (List V) → List A → Dict K (List V)
  append_by val d [] = d
  append_by val d (x ∷ xs) = append_by val (modify (key x) (λ vs. vs ++ val x ∷ []) [] d) xs

  abbrev pub having : K → List A → List A
  having k xs = filtered (λ x. e.same (key x) k) xs

  pub accumulate-IsDict :
      (val : A → ℤ) (d : Dict K ℤ) (xs : List A) → IsDict d → IsDict (accumulate val d xs)
  accumulate-IsDict val d [] h = h
  accumulate-IsDict val d (x ∷ xs) h =
      accumulate-IsDict val (modify (key x) (λ v. v +ℤ val x) (pos 0) d) xs
        (modify-IsDict (key x) (λ v. v +ℤ val x) (pos 0) d h)

  pub append_by-IsDict {μ} :
      {V : Type μ} (val : A → V) (d : Dict K (List V)) (xs : List A)
      → IsDict d
      → IsDict (append_by val d xs)
  append_by-IsDict val d [] h = h
  append_by-IsDict val d (x ∷ xs) h =
      append_by-IsDict val (modify (key x) (λ vs. vs ++ val x ∷ []) [] d) xs
        (modify-IsDict (key x) (λ vs. vs ++ val x ∷ []) [] d h)

  -- The entry of a key is the sum over the elements with that key.
  pub get_or-accumulate :
      (val : A → ℤ) (k : K) (d : Dict K ℤ) (xs : List A)
      → get_or (lookup k (accumulate val d xs)) (pos 0)
        ≡ get_or (lookup k d) (pos 0) +ℤ total val (having k xs)
  get_or-accumulate val k d [] = omega int_laws
  get_or-accumulate val k d (x ∷ xs) =
      rw
        (
          get_or-accumulate val k (modify (key x) (λ v. v +ℤ val x) (pos 0) d) xs,
          lookup-modify k (key x) (λ v. v +ℤ val x) (pos 0) d,
        )
        (elim (Bool-cases (e.same (key x) k)) [
          | inl same ↦ rw same (omega int_laws)
          | inr other ↦ rw other refl
        ])

  pub get_or-append_by {μ} :
      {V : Type μ} (val : A → V) (k : K) (d : Dict K (List V)) (xs : List A)
      → get_or (lookup k (append_by val d xs)) [] ≡ get_or (lookup k d) [] ++ map val (having k xs)
  get_or-append_by val k d [] = rw append-nil
  get_or-append_by val k d (x ∷ xs) =
      rw
        (
          get_or-append_by val k (modify (key x) (λ vs. vs ++ val x ∷ []) [] d) xs,
          lookup-modify k (key x) (λ vs. vs ++ val x ∷ []) [] d,
        )
        (elim (Bool-cases (e.same (key x) k)) [
          | inl same ↦ rw same (rw append_assoc refl)
          | inr other ↦ rw other refl
        ])

  -- A key is present just when it was, or some element has it.
  pub lookup-accumulate-none :
      (val : A → ℤ) (k : K) (d : Dict K ℤ) (xs : List A)
      → lookup k (accumulate val d xs) ≡ none
      → (lookup k d ≡ none) × (having k xs ≡ [])
  lookup-accumulate-none val k d [] h = (h, refl)
  lookup-accumulate-none val k d (x ∷ xs) h = ground (
    arith,
    lookup-accumulate-none val k (modify (key x) (λ v. v +ℤ val x) (pos 0) d) xs h,
    lookup-modify k (key x) (λ v. v +ℤ val x) (pos 0) d,
  )

  -- A key that no element has keeps its entry.
  pub lookup-accumulate_absent :
      (val : A → ℤ) (k : K) (d : Dict K ℤ) (xs : List A)
      → having k xs ≡ []
      → lookup k (accumulate val d xs) ≡ lookup k d
  lookup-accumulate_absent val k d [] h = refl
  lookup-accumulate_absent val k d (x ∷ xs) h = ground (
    arith,
    lookup-accumulate_absent val k (modify (key x) (λ v. v +ℤ val x) (pos 0) d) xs,
    lookup-modify k (key x) (λ v. v +ℤ val x) (pos 0) d,
  )

  total-modify :
      (k : K) (q : ℤ) (d : Dict K ℤ)
      → total (λ p. p.1) (modify k (λ v. v +ℤ q) (pos 0) d) ≡ total (λ p. p.1) d +ℤ q
  total-modify k q [] = omega int_laws
  total-modify k q ((j, v) ∷ d) = elim (Bool-cases (e.same j k)) [
    | inl same ↦ rw same (omega int_laws)
    | inr other ↦ rw (other, total-modify k q d) (omega int_laws)
  ]

  -- The entries add up to what was there and what came.
  pub total-accumulate :
      (val : A → ℤ) (d : Dict K ℤ) (xs : List A)
      → total (λ p. p.1) (accumulate val d xs) ≡ total (λ p. p.1) d +ℤ total val xs
  total-accumulate val d [] = omega int_laws
  total-accumulate val d (x ∷ xs) =
      rw
        (
          total-accumulate val (modify (key x) (λ v. v +ℤ val x) (pos 0) d) xs,
          total-modify (key x) (val x) d,
        )
        (omega int_laws)

-- Adding up over all the groups is adding up over all the elements.
module _ {ℓ κ μ} {A : Type ℓ} {K : Type κ} {V : Type μ} ⦃e : Key K⦄ (key : A → K) (w : V → ℤ) where
  abbrev pub group_total : Dict K (List V) → ℤ
  group_total d = total (λ p. total w p.1) d

  total-modify_append :
      (k : K) (v : V) (d : Dict K (List V))
      → group_total (modify k (λ vs. vs ++ v ∷ []) [] d) ≡ group_total d +ℤ w v
  total-modify_append k v [] = omega int_laws
  total-modify_append k v ((j, vs) ∷ d) = elim (Bool-cases (e.same j k)) [
    | inl same ↦ rw (same, total-append w vs (v ∷ [])) (omega int_laws)
    | inr other ↦ rw (other, total-modify_append k v d) (omega int_laws)
  ]

  pub total-append_by :
      (val : A → V) (d : Dict K (List V)) (xs : List A)
      → group_total (append_by key val d xs) ≡ group_total d +ℤ total (λ x. w (val x)) xs
  total-append_by val d [] = omega int_laws
  total-append_by val d (x ∷ xs) =
      rw
        (
          total-append_by val (modify (key x) (λ vs. vs ++ val x ∷ []) [] d) xs,
          total-modify_append (key x) (val x) d,
        )
        (omega int_laws)

-- What holds of the key and of the value of every element holds of the groups.
module _ {ℓ κ μ ν} {A : Type ℓ} {K : Type κ} {V : Type μ} ⦃e : Key K⦄ (key : A → K) (P : K → Type ν)
    (Q : V → Type ν) where
  modify_append-All :
      (k : K) (v : V) (d : Dict K (List V))
      → P k
      → Q v
      → All (λ p. P p.0 × All Q p.1) d
      → All (λ p. P p.0 × All Q p.1) (modify k (λ vs. vs ++ v ∷ []) [] d)
  modify_append-All k v [] hk hv h = ((hk, (hv, tt)), tt)
  modify_append-All k v ((j, vs) ∷ d) hk hv ((hj, hvs), h) = elim (Bool-cases (e.same j k)) [
    | inl same ↦ rw same ((hj, All-append Q vs (v ∷ []) hvs (hv, tt)), h)
    | inr other ↦ rw other ((hj, hvs), modify_append-All k v d hk hv h)
  ]

  pub append_by-All :
      (val : A → V) (d : Dict K (List V)) (xs : List A)
      → ((x : A) → P (key x) × Q (val x))
      → All (λ p. P p.0 × All Q p.1) d
      → All (λ p. P p.0 × All Q p.1) (append_by key val d xs)
  append_by-All val d [] h hs = hs
  append_by-All val d (x ∷ xs) h hs =
      append_by-All val (modify (key x) (λ vs. vs ++ val x ∷ []) [] d) xs h
        (modify_append-All (key x) (val x) d (h x).0 (h x).1 hs)

-- Adding up over the group of one key is adding up over the elements with that key.
module _ {ℓ κ μ} {A : Type ℓ} {K : Type κ} {V : Type μ} ⦃e : Key K⦄ (key : A → K) (w : V → ℤ)
    (k : K) where
  abbrev pub total_at : Dict K (List V) → ℤ
  total_at d = total (λ p. if e.same p.0 k then total w p.1 else pos 0) d

  abbrev pub at_key : A → V → ℤ
  at_key x v = if e.same (key x) k then w v else pos 0

  total_at-modify :
      (x : A) (v : V) (d : Dict K (List V))
      → total_at (modify (key x) (λ vs. vs ++ v ∷ []) [] d) ≡ total_at d +ℤ at_key x v
  total_at-modify x v [] = elim (Bool-cases (e.same (key x) k)) [
    | inl here ↦ rw here (omega int_laws)
    | inr away ↦ rw away (omega int_laws)
  ]
  total_at-modify x v ((j, vs) ∷ d) = elim (Bool-cases (e.same j (key x))) [
    | inr other ↦ rw (other, total_at-modify x v d) (omega int_laws)
    | inl same ↦
        let j_is : e.same j k ≡ e.same (key x) k =
          ap (λ i. e.same i k) ((e.same_iff j (key x)).0 same) in
        rw (same, j_is)
          (elim (Bool-cases (e.same (key x) k)) [
            | inl here ↦ rw (here, total-append w vs (v ∷ [])) (omega int_laws)
            | inr away ↦ rw away (omega int_laws)
          ])
  ]

  pub total_at-append_by :
      (val : A → V) (d : Dict K (List V)) (xs : List A)
      → total_at (append_by key val d xs) ≡ total_at d +ℤ total (λ x. at_key x (val x)) xs
  total_at-append_by val d [] = omega int_laws
  total_at-append_by val d (x ∷ xs) =
      rw
        (
          total_at-append_by val (modify (key x) (λ vs. vs ++ val x ∷ []) [] d) xs,
          total_at-modify x (val x) d,
        )
        (omega int_laws)
