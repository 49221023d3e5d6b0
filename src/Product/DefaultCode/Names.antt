-- ===== src/Product/DefaultCode/Names.antt =====
-- Which products have a default code, and which code it is.
use hai_compnay.Common.{
  List, [], ◌∷◌, ◌++◌, map, ◌≡◌, ◌≢◌, refl, sym, ap, ◌∙◌, ◌↔◌, ◌⊎◌, arith, true, false, Bool-cases,
  inl, inr, ok, ◌>>◌, raise_if, if◌then◌else◌, is_nonempty, not, ◌&&◌, All, bind-Returns,
  ok-injective,
}
use mathlib.Core.List.{append-nil, append_assoc}
use hai_compnay.Common.Decimal.{Text}
use hai_compnay.Product.DefaultCode.{
  AttributeConfig, AttributeValue, Product, attributes_mismatch, sorted, strip_spaces, join,
  values_of, name_step, names_loop, is_configured, extra_messages, code_or_default,
  get_default_code,
}

abbrev pub name_of : AttributeValue → Text
name_of v = strip_spaces v.name

-- The configured attribute has one value.
abbrev pub HasOneValue : List AttributeValue → AttributeConfig → Type 0
HasOneValue values c = (v : AttributeValue) × (values_of values c ≡ v ∷ [])

-- The names of the values of the configured attributes, in the order of the configuration.
abbrev pub names_of : List AttributeValue → List AttributeConfig → List Text
names_of values [] = []
names_of values (c ∷ cs) = map name_of (values_of values c) ++ names_of values cs

names_loop-names_of :
    (values : List AttributeValue) (errs names : List Text) (cs : List AttributeConfig)
    → All (HasOneValue values) cs
    → names_loop values errs names cs ≡ ok (errs, names ++ names_of values cs)
unfolding names_loop
names_loop-names_of values errs names [] h = rw append-nil refl
names_loop-names_of values errs names (c ∷ cs) ((v, one), hs) =
    rw (one, names_loop-names_of values errs (names ++ name_of v ∷ []) cs hs) (rw append_assoc refl)

grown : (xs : List Text) (x : Text) → xs ++ x ∷ [] ≢ []
grown [] x e = ground arith
grown (y ∷ ys) x e = ground arith

-- A round either notes a message or finds one value.
name_step_cases :
    (errs names : List Text) (c : AttributeConfig) (vs : List AttributeValue)
    (r : List Text × List Text)
    → name_step errs names c vs ≡ ok r
    → (r.0 ≡ errs ++ c.attribute_name ∷ []) ⊎ ((r.0 ≡ errs) × (v : AttributeValue) × (vs ≡ v ∷ []))
name_step_cases errs names c [] r h = inl (ap (λ p. p.0) (sym (ok-injective h)))
name_step_cases errs names c (v ∷ []) r h = inr (ap (λ p. p.0) (sym (ok-injective h)), v, refl)
name_step_cases errs names c (v ∷ w ∷ vs) r h = cc

names_loop_clean :
    (values : List AttributeValue) (errs names names' : List Text) (cs : List AttributeConfig)
    → names_loop values errs names cs ≡ ok ([], names')
    → (errs ≡ []) × All (HasOneValue values) cs
unfolding names_loop
names_loop_clean values errs names names' [] h = (ap (λ p. p.0) (ok-injective h), tt)
names_loop_clean values errs names names' (c ∷ cs) h =
    let (r, stepped, rest) = bind-Returns (name_step errs names c (values_of values c)) _ h in
    let (clean, hs) = names_loop_clean values r.0 r.1 names' cs rest in
    elim (name_step_cases errs names c (values_of values c) r stepped) [
      | inl noted ↦ absurd (grown errs c.attribute_name (sym noted ∙ clean))
      | inr (kept, v, one) ↦ (sym kept ∙ clean, ((v, one), hs))
    ]

extra_messages_iff :
    (configs : List AttributeConfig) (values : List AttributeValue)
    → (is_nonempty (extra_messages configs values) ≡ false)
      ↔ All (λ v. is_configured configs v ≡ true) values
extra_messages_iff configs [] = (λ h. tt, λ h. refl)
extra_messages_iff configs (v ∷ vs) = elim (Bool-cases (is_configured configs v)) [
  | inl known ↦ (
    λ h. (known, (extra_messages_iff configs vs).0 (ground arith)),
    λ (h, hs). rw known ((extra_messages_iff configs vs).1 hs),
  )
  | inr extra ↦ (λ h. ground arith, λ (h, hs). ground arith)
]

-- Outside the installation, a product has a default code exactly when each attribute that its
-- category configures has one value on it and it has values of no other attribute. The code is then
-- the names of those values, without spaces, in the order of the configuration with dashes between,
-- or the default one where that is empty.
pub get_default_code_iff :
    (product : Product) (code : Text)
    → let values = product.product_template_attribute_value_ids in
      let configs = product.x_attribute_config_ids in
      (get_default_code false product ≡ ok code) ↔ (
        All (HasOneValue values) (sorted configs)
        × All (λ v. is_configured configs v ≡ true) values
        × (code ≡ code_or_default product.id (join b'-' (names_of values (sorted configs)))))
unfolding get_default_code
get_default_code_iff product code = (
  λ h.
      let ((errors, names), made, rest) =
        bind-Returns (names_loop values [] [] (sorted configs)) _ h in
      let (clean, known, built) = go errors names rest in
      let looped : names_loop values [] [] (sorted configs) ≡ ok ([], names) =
        made ∙ ap (λ es. ok (es, names)) clean in
      let hs = (names_loop_clean values [] [] names (sorted configs) looped).1 in
      let named : names_of values (sorted configs) ≡ names =
        ap (λ p. p.1)
          (ok-injective (sym (names_loop-names_of values [] [] (sorted configs) hs) ∙ looped)) in
      (
        hs,
        (extra_messages_iff configs values).0 known,
        sym built ∙ ap (λ ns. code_or_default product.id (join b'-' ns)) (sym named),
      ),
  λ (hs, known, built).
      let none_extra = (extra_messages_iff configs values).1 known in
      rw (names_loop-names_of values [] [] (sorted configs) hs, none_extra, built) refl,
)
  where
    values : List AttributeValue
    values = product.product_template_attribute_value_ids

    configs : List AttributeConfig
    configs = product.x_attribute_config_ids

    go :
        (errors names : List Text)
        → (let messages = if is_nonempty errors then errors else extra_messages configs values in
            raise_if (is_nonempty messages && not false) (attributes_mismatch messages)
            >> ok (code_or_default product.id (join b'-' names)))
          ≡ ok code
        → (errors ≡ [])
          × (is_nonempty (extra_messages configs values) ≡ false)
          × (code_or_default product.id (join b'-' names) ≡ code)
    go (e ∷ es) names h = cc
    go [] names h = elim (Bool-cases (is_nonempty (extra_messages configs values))) [
      | inl extra ↦ ground (arith, extra)
      | inr known ↦ (refl, known, ok-injective (rw known at h))
    ]
