-- ===== src/Returns/Orders/Types.antt =====
-- Returns and purchases are confirmed apart, and returns hold products of their origin only.
use hai_compnay.Common.{
  ℕ, List, [], ◌∷◌, map, ◌≡◌, refl, sym, ◌∙◌, ◌↔◌, ◌⊎◌, arith, Option, none, some, true, false,
  Bool-cases, inl, inr, Result, ok, err, Bool, filtered, any, is_nonempty, ◌==◌, All, bind-Returns,
  ok-injective,
}
use hai_compnay.Returns.Wizard.{Error}
use hai_compnay.Returns.Orders.{
  Order, is_return, is_purchase, to_approve_return, write_to_approve, button_confirm,
  foreign_products, check_products, check_order_lines_match_origin,
}

-- The products of an order are among those of the order that it comes from.
abbrev pub MatchesOrigin : List ℕ → Option (List ℕ) → Type 0
MatchesOrigin products none = Unit
MatchesOrigin products (some origin) = All (λ p. any (λ q. p == q) origin ≡ true) products

foreign_products_iff :
    (origin products : List ℕ)
    → (is_nonempty (foreign_products origin products) ≡ false)
      ↔ All (λ p. any (λ q. p == q) origin ≡ true) products
foreign_products_iff origin [] = (λ h. tt, λ h. refl)
foreign_products_iff origin (p ∷ ps) = ground (arith, foreign_products_iff origin ps)

check_products_iff :
    (products : List ℕ) (origin : Option (List ℕ))
    → (check_products products origin ≡ ok tt) ↔ MatchesOrigin products origin
check_products_iff products none = (λ h. tt, λ h. refl)
check_products_iff products (some origin) = ground (arith, foreign_products_iff origin products)

-- The check passes exactly when every order with an origin has only products of its origin's lines.
pub check_order_lines_match_origin_iff :
    (orders : List Order)
    → (check_order_lines_match_origin orders ≡ ok tt)
      ↔ All (λ o. MatchesOrigin o.products o.origin_products) orders
unfolding check_order_lines_match_origin
check_order_lines_match_origin_iff [] = (λ h. tt, λ h. refl)
check_order_lines_match_origin_iff (o ∷ os) = (
  λ h.
      let (u, first, rest) = bind-Returns (check_products o.products o.origin_products) _ h in
      (
        (check_products_iff o.products o.origin_products).0 first,
        (check_order_lines_match_origin_iff os).0 rest,
      ),
  λ (h, hs).
      rw ((check_products_iff o.products o.origin_products).1 h)
        ((check_order_lines_match_origin_iff os).1 hs),
)

-- The state that the write gives is no matter to the check.
written_iff :
    (orders : List Order)
    → (check_order_lines_match_origin (map to_approve_return orders) ≡ ok tt)
      ↔ All (λ o. MatchesOrigin o.products o.origin_products) orders
written_iff orders = (
  λ h. of_written orders ((check_order_lines_match_origin_iff (map to_approve_return orders)).0 h),
  λ h. (check_order_lines_match_origin_iff (map to_approve_return orders)).1 (to_written orders h),
)
  where
    of_written :
        (os : List Order)
        → All (λ o. MatchesOrigin o.products o.origin_products) (map to_approve_return os)
        → All (λ o. MatchesOrigin o.products o.origin_products) os
    of_written [] h = tt
    of_written (o ∷ os) (h, hs) = (h, of_written os hs)

    to_written :
        (os : List Order)
        → All (λ o. MatchesOrigin o.products o.origin_products) os
        → All (λ o. MatchesOrigin o.products o.origin_products) (map to_approve_return os)
    to_written [] h = tt
    to_written (o ∷ os) (h, hs) = (h, to_written os hs)

write_to_approve_iff :
    (os orders' : List Order)
    → (write_to_approve os ≡ ok orders') ↔ (
        All (λ o. MatchesOrigin o.products o.origin_products) os
        × (orders' ≡ map to_approve_return os))
unfolding write_to_approve
write_to_approve_iff os orders' = (
  λ h.
      let (u, checked, built) =
        bind-Returns (check_order_lines_match_origin (map to_approve_return os)) _ h in
      ((written_iff os).0 checked, sym (ok-injective built)),
  λ (matches, e). rw ((written_iff os).1 matches, e) refl,
)

none_iff : (p : Order → Bool) (os : List Order) → (any p os ≡ false) ↔ All (λ o. p o ≡ false) os
none_iff p [] = (λ h. tt, λ h. refl)
none_iff p (o ∷ os) = ground (arith, none_iff p os)

abbrev pub HasReturn : List Order → Type 0
HasReturn orders = any is_return orders ≡ true

-- Orders are confirmed exactly in two ways. Either one at least is a return, none is a purchase, and
-- every return with an origin has only products of its origin's lines; then each return waits for
-- approval, and orders without a type are left out. Or none is a return, and Odoo's own method
-- confirms them.
pub button_confirm_iff :
    (confirm : List Order → Result Error (List Order)) (orders orders' : List Order)
    → (button_confirm confirm orders ≡ ok orders') ↔ (
        (HasReturn orders
          × All (λ o. is_purchase o ≡ false) orders
          × All (λ o. MatchesOrigin o.products o.origin_products) (filtered is_return orders)
          × (orders' ≡ map to_approve_return (filtered is_return orders)))
        ⊎ (All (λ o. is_return o ≡ false) orders × (confirm orders ≡ ok orders')))
unfolding button_confirm
button_confirm_iff confirm orders orders' =
    let purchases = none_iff is_purchase orders in
    let returns = none_iff is_return orders in
    let write_ = write_to_approve_iff (filtered is_return orders) orders' in
    elim (Bool-cases (any is_return orders)) [
      | inr no_return ↦ (
        λ h. inr (returns.0 no_return, rw no_return at h),
        λ way. elim way [
          | inl (some_, no_purchase, matches, e) ↦ absurd (clash (sym no_return ∙ some_))
          | inr (all_, confirmed) ↦ rw no_return confirmed
        ],
      )
      | inl some_return ↦ elim (Bool-cases (any is_purchase orders)) [
        | inl mixed ↦ (
          λ h. absurd (failed (rw (some_return, mixed) at h)),
          λ way. elim way [
            | inl (some_, no_purchase, matches, e) ↦
                absurd (clash (sym (purchases.1 no_purchase) ∙ mixed))
            | inr (all_, confirmed) ↦ absurd (clash (sym (returns.1 all_) ∙ some_return))
          ],
        )
        | inr no_purchase ↦ (
          λ h.
              let (matches, e) = write_.0 (rw (some_return, no_purchase) at h) in
              inl (some_return, purchases.0 no_purchase, matches, e),
          λ way. elim way [
            | inl (some_, no_purchase', matches, e) ↦
                rw (some_return, no_purchase) (write_.1 (matches, e))
            | inr (all_, confirmed) ↦ absurd (clash (sym (returns.1 all_) ∙ some_return))
          ],
        )
      ]
    ]
  where
    clash : false ≡ true → ⊥
    clash h = cc

    failed : {os : List Order} {e : Error} → ◌≡◌ {A = Result Error (List Order)} (err e) (ok os) → ⊥
    failed h = cc
