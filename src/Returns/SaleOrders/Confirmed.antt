-- ===== src/Returns/SaleOrders/Confirmed.antt =====
-- Sales and returns are confirmed apart, and each return by itself.
use hai_compnay.Common.{
  List, [], ◌∷◌, ◌++◌, ◌≡◌, refl, sym, ap, ◌∙◌, ◌↔◌, ◌⊎◌, arith, true, false, Bool-cases, inl, inr,
  Result, ok, err, Option, none, some, Bool, filtered, any, All, bind-Returns, ok-injective,
}
use hai_compnay.Returns.Wizard.{Error}
use hai_compnay.Returns.SaleOrders.{Order, is_return, is_sale, confirm_each, action_confirm}

abbrev pub HasReturn : List Order → Type 0
HasReturn orders = any is_return orders ≡ true

none_iff : (p : Order → Bool) (os : List Order) → (any p os ≡ false) ↔ All (λ o. p o ≡ false) os
none_iff p [] = (λ h. tt, λ h. refl)
none_iff p (o ∷ os) = ground (arith, none_iff p os)

-- Every order was confirmed by itself, in the context of itself, with these outcomes.
abbrev pub Each :
    (Option Order → List Order → Result Error (List Order)) → List Order → List Order → Type 0
Each confirm [] orders' = orders' ≡ []
Each confirm (o ∷ os) orders' =
    (done rest : List Order) × (confirm (some o) (o ∷ []) ≡ ok done)
    × Each confirm os rest
    × (orders' ≡ done ++ rest)

module _ (confirm : Option Order → List Order → Result Error (List Order)) where
  confirm_each_iff :
      (os orders' : List Order) → (confirm_each confirm os ≡ ok orders') ↔ Each confirm os orders'
  unfolding confirm_each
  confirm_each_iff [] orders' = (λ h. sym (ok-injective h), λ e. ap ok (sym e))
  confirm_each_iff (o ∷ os) orders' = (
    λ h.
        let (done, now, later) = bind-Returns (confirm (some o) (o ∷ [])) _ h in
        let (rest, made, built) = bind-Returns (confirm_each confirm os) _ later in
        (done, rest, now, (confirm_each_iff os rest).0 made, sym (ok-injective built)),
    λ (done, rest, now, each, e).
        let made = (confirm_each_iff os rest).1 each in rw (now, made, e) refl,
  )

  -- Orders are confirmed exactly in two ways. Either one at least is a return and none is a sale;
  -- then Odoo's own method confirms each return by itself and with itself as the return of the
  -- context, and orders without a type are left out. Or none is a return, and it confirms all
  -- together.
  pub action_confirm_iff :
      (orders orders' : List Order)
      → (action_confirm confirm orders ≡ ok orders') ↔ (
          (HasReturn orders
            × All (λ o. is_sale o ≡ false) orders
            × Each confirm (filtered is_return orders) orders')
          ⊎ (All (λ o. is_return o ≡ false) orders × (confirm none orders ≡ ok orders')))
  unfolding action_confirm
  action_confirm_iff orders orders' =
      let sales = none_iff is_sale orders in
      let returns = none_iff is_return orders in
      let each = confirm_each_iff (filtered is_return orders) orders' in
      elim (Bool-cases (any is_return orders)) [
        | inr no_return ↦ (
          λ h. inr (returns.0 no_return, rw no_return at h),
          λ way. elim way [
            | inl (some_, no_sale, e) ↦ absurd (clash (sym no_return ∙ some_))
            | inr (all_, confirmed) ↦ rw no_return confirmed
          ],
        )
        | inl some_return ↦ elim (Bool-cases (any is_sale orders)) [
          | inl mixed ↦ (
            λ h. absurd (failed (rw (some_return, mixed) at h)),
            λ way. elim way [
              | inl (some_, no_sale, e) ↦ absurd (clash (sym (sales.1 no_sale) ∙ mixed))
              | inr (all_, confirmed) ↦ absurd (clash (sym (returns.1 all_) ∙ some_return))
            ],
          )
          | inr no_sale ↦ (
            λ h. inl (some_return, sales.0 no_sale, each.0 (rw (some_return, no_sale) at h)),
            λ way. elim way [
              | inl (some_, no_sale', e) ↦ rw (some_return, no_sale) (each.1 e)
              | inr (all_, confirmed) ↦ absurd (clash (sym (returns.1 all_) ∙ some_return))
            ],
          )
        ]
      ]
    where
      clash : false ≡ true → ⊥
      clash h = cc

      failed :
          {os : List Order} {e : Error} → ◌≡◌ {A = Result Error (List Order)} (err e) (ok os) → ⊥
      failed h = cc
