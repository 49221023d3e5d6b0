-- ===== src/Product/DefaultCode/Unique.antt =====
-- What `_generate_default_code` writes, and that it avoids the codes of other products.
use hai_compnay.Common.{
  List, [], ◌∷◌, ◌≡◌, ◌≢◌, refl, sym, subst, ◌↔◌, ◌⊎◌, arith, Bool, true, false, Bool-cases, inl,
  inr, ok, ◌>>=◌, ◌>>◌, raise_if, if◌then◌else◌, not, All, All₂, bind-Returns, ok-injective,
  lacks_iff, ap, ◌∙◌, map, ℕ, some, Option-cases,
}
use mathlib.Core.Option.{some-injective}
use hai_compnay.Common.Decimal.{Text}
use hai_compnay.Product.DefaultCode.Names.{HasOneValue, names_of, get_default_code_iff}
use hai_compnay.Product.DefaultCode.{
  Product, already_existed, mem_code, set_default_code, get_default_code, generate_one,
  is_configured, join, code_or_default, sorted, generate_default_code, generate_loop,
  get_all_default_code, is_outside, Row, id_of,
}

-- A product of the type `consu` gets its default code, which none of these codes equals; others stay.
abbrev pub IsCoded : List Text → Product → Product → Type 0
IsCoded existing p p' =
    ((p.is_consu ≡ false) × (p' ≡ p))
    ⊎ ((p.is_consu ≡ true)
        × (code : Text) × (get_default_code false p ≡ ok code)
        × All (λ other. code ≢ other) existing
        × (p' ≡ set_default_code p code))

generate_one_iff :
    (existing : List Text) (p p' : Product)
    → (generate_one false existing p ≡ ok p') ↔ IsCoded existing p p'
unfolding generate_one
generate_one_iff existing p p' = go p.is_consu
  where
    go :
        (consu : Bool)
        → ((if not consu
              then ok p
              else (get_default_code false p >>= λ code.
                  raise_if (mem_code code existing) (already_existed code)
                  >> ok (set_default_code p code)))
            ≡ ok p')
          ↔ (((consu ≡ false) × (p' ≡ p))
              ⊎ ((consu ≡ true)
                  × (code : Text) × (get_default_code false p ≡ ok code)
                  × All (λ other. code ≢ other) existing
                  × (p' ≡ set_default_code p code)))
    go false = (λ h. inl (refl, sym (ok-injective h)), λ h. ground arith)
    go true = (
      λ h.
          let (code, made, rest) = bind-Returns (get_default_code false p) _ h in
          let (u, free, built) =
            bind-Returns (raise_if (mem_code code existing) (already_existed code)) _ rest in
          elim (Bool-cases (mem_code code existing)) [
            | inl taken ↦ ground (arith, free, taken)
            | inr fresh ↦
                inr (refl, code, made, (lacks_iff code existing).0 fresh, sym (ok-injective built))
          ],
      λ coded. elim coded [
        | inl (e, h) ↦ ground arith
        | inr (e, code, made, fresh, h) ↦ rw (made, (lacks_iff code existing).1 fresh, h) refl
      ],
    )

generate_loop_iff :
    (existing : List Text) (ps ps' : List Product)
    → (generate_loop false existing ps ≡ ok ps') ↔ All₂ (IsCoded existing) ps ps'
unfolding generate_loop
generate_loop_iff existing [] [] = (λ h. tt, λ h. refl)
generate_loop_iff existing [] (p' ∷ ps') = (λ h. ground arith, λ h. absurd h)
generate_loop_iff existing (p ∷ ps) ps' = (
  λ h.
      let (q, coded, rest) = bind-Returns (generate_one false existing p) _ h in
      let (qs, all_coded, built) = bind-Returns (generate_loop false existing ps) _ rest in
      subst (All₂ (IsCoded existing) (p ∷ ps)) (ok-injective built)
        ((generate_one_iff existing p q).0 coded, (generate_loop_iff existing ps qs).0 all_coded),
  back ps' (λ rs. (generate_loop_iff existing ps rs).1),
)
  where
    back :
        (qs : List Product)
        → ((rs : List Product)
            → All₂ (IsCoded existing) ps rs
            → generate_loop false existing ps ≡ ok rs)
        → All₂ (IsCoded existing) (p ∷ ps) qs
        → generate_loop false existing (p ∷ ps) ≡ ok qs
    back [] ih h = absurd h
    back (q ∷ qs) ih (h, hs) = rw ((generate_one_iff existing p q).1 h, ih qs hs) refl

-- No row of a product outside the call has the code.
abbrev pub IsUnused : List ℕ → List Row → Text → Type 0
IsUnused ids rows code = All (λ row. is_outside ids row ≡ true → row.default_code ≢ some code) rows

-- The code that the product's attributes make: each that its category lists has one value, each value
-- is of one of them, and the code joins the values in their order, or is made of the identifier.
abbrev pub IsCodeOf : Product → Text → Type 0
IsCodeOf p code =
    let values = p.product_template_attribute_value_ids in
    let configs = p.x_attribute_config_ids in
    All (HasOneValue values) (sorted configs)
    × All (λ v. is_configured configs v ≡ true) values
    × (code ≡ code_or_default p.id (join b'-' (names_of values (sorted configs))))

-- A product of the type `consu` has the code of its attributes, which no product outside the call has
-- in the database; any other stays as it is.
abbrev pub IsGiven : List ℕ → List Row → Product → Product → Type 0
IsGiven ids rows p p' =
    ((p.is_consu ≡ false) × (p' ≡ p))
    ⊎ ((p.is_consu ≡ true)
        × (code : Text) × IsCodeOf p code
        × IsUnused ids rows code
        × (p' ≡ set_default_code p code))

IsUnused-iff :
    (ids : List ℕ) (rows : List Row) (code : Text)
    → All (λ other. code ≢ other) (get_all_default_code true ids rows) ↔ IsUnused ids rows code
unfolding get_all_default_code
IsUnused-iff ids [] code = (λ h. tt, λ h. tt)
IsUnused-iff ids (row ∷ rows) code =
    let ih = IsUnused-iff ids rows code in
    elim (Bool-cases (is_outside ids row)) [
      | inr inside ↦ (
        λ h. (λ outside e. absurd (clash (sym inside ∙ outside)), ih.0 (rw inside at h)),
        λ (h, hs). rw inside (ih.1 hs),
      )
      | inl outside ↦ elim (Option-cases row.default_code) [
        | inl null ↦ (
          λ h. (λ _ e. cc, ih.0 (rw (outside, null) at h)),
          λ (h, hs). rw (outside, null) (ih.1 hs),
        )
        | inr (other, has) ↦ (
          λ h.
              let (differs, rest) = named (rw (outside, has) at h) in
              (λ _ e. differs (some-injective _ _ (sym e ∙ has)), ih.0 rest),
          λ (h, hs). rw (outside, has) ((λ e. h outside (has ∙ ap some (sym e))), ih.1 hs),
        )
      ]
    ]
  where
    clash : false ≡ true → ⊥
    clash h = cc

    named : {P Q : Type 0} → P × Q → P × Q
    named h = h

IsGiven-iff :
    (ids : List ℕ) (rows : List Row) (ps ps' : List Product)
    → All₂ (IsCoded (get_all_default_code true ids rows)) ps ps' ↔ All₂ (IsGiven ids rows) ps ps'
IsGiven-iff ids rows [] [] = (λ h. tt, λ h. tt)
IsGiven-iff ids rows [] (p' ∷ ps') = (λ h. h, λ h. h)
IsGiven-iff ids rows (p ∷ ps) [] = (λ h. h, λ h. h)
IsGiven-iff ids rows (p ∷ ps) (p' ∷ ps') =
    let ih = IsGiven-iff ids rows ps ps' in
    (λ (coded, hs). (one coded, ih.0 hs), λ (given, hs). (back given, ih.1 hs))
  where
    one : IsCoded (get_all_default_code true ids rows) p p' → IsGiven ids rows p p'
    one (inl h) = inl h
    one (inr (consu, code, made, fresh, e)) =
        inr (
          consu,
          code,
          (get_default_code_iff p code).0 made,
          (IsUnused-iff ids rows code).0 fresh,
          e,
        )

    back : IsGiven ids rows p p' → IsCoded (get_all_default_code true ids rows) p p'
    back (inl h) = inl h
    back (inr (consu, code, made, unused, e)) = inr (
      consu,
      code,
      (get_default_code_iff p code).1 made,
      (IsUnused-iff ids rows code).1 unused,
      e,
    )

-- When products are created, outside the installation, their codes are generated exactly when the
-- attributes of every product of the type `consu` make a code, and no row of a product outside the call,
-- with an identifier other than 0, has that code; each then has it, and the products of other types
-- stay as they are.
pub generate_default_code_iff :
    (rows : List Row) (ps ps' : List Product)
    → (generate_default_code false true rows ps ≡ ok ps')
      ↔ All₂ (IsGiven (map id_of ps) rows) ps ps'
unfolding generate_default_code
generate_default_code_iff rows ps ps' =
    let coded = generate_loop_iff (get_all_default_code true (map id_of ps) rows) ps ps' in
    let given = IsGiven-iff (map id_of ps) rows ps ps' in
    (λ h. given.0 (coded.0 h), λ h. coded.1 (given.1 h))
