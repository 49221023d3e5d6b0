-- ===== src/Returns/Tests/Confirm.antt =====
-- The theorems on confirming orders and on their products, at small inputs.
use hai_compnay.Common.{
  ℕ, List, [], ◌∷◌, map, ◌≡◌, ◌↔◌, ◌⊎◌, Option, none, some, Result, ok, err, All, filtered, refl,
  false,
}
use hai_compnay.Returns.Wizard.{Error, not_in_origin}
use hai_compnay.Returns.Purchase.{OrderState}
use hai_compnay.Returns.Orders.{
  OrderType, Order, is_return, is_purchase, to_approve_return, button_confirm,
}
use hai_compnay.Returns.Orders.Types.{HasReturn, MatchesOrigin, button_confirm_iff}

abbrev order : ℕ → Option OrderType → Option (List ℕ) → Order
order id type origin = record {
  id = id;
  x_type = type;
  state = OrderState.draft;
  products = 5 ∷ 6 ∷ [];
  origin_products = origin;
  return_states = [];
}

abbrev orders : List Order
orders =
    order 1 (some OrderType.return_) (some (6 ∷ 5 ∷ 7 ∷ []))
    ∷ order 2 none none
    ∷ order 3 (some OrderType.return_) none
    ∷ []

abbrev waiting : List Order
waiting = map to_approve_return (filtered is_return orders)

abbrev keep : List Order → Result Error (List Order)
keep os = ok os

confirmed : button_confirm keep orders ≡ ok waiting
unfolding button_confirm
confirmed = refl

-- Product 5 is not in the origin's lines.
foreign :
    button_confirm keep (order 1 (some OrderType.return_) (some (6 ∷ [])) ∷ [])
    ≡ err (not_in_origin (5 ∷ []))
unfolding button_confirm
foreign = refl

button_confirm_iff_example : (button_confirm keep orders ≡ ok waiting) ↔ (
    (HasReturn orders
      × All (λ o. is_purchase o ≡ false) orders
      × All (λ o. MatchesOrigin o.products o.origin_products) (filtered is_return orders)
      × (waiting ≡ map to_approve_return (filtered is_return orders)))
    ⊎ (All (λ o. is_return o ≡ false) orders × (keep orders ≡ ok waiting)))
button_confirm_iff_example = button_confirm_iff keep orders waiting
