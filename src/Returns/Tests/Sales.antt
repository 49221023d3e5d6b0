-- ===== src/Returns/Tests/Sales.antt =====
-- The theorems on sale return orders and on the value of returned goods, at small inputs.
use hai_compnay.Common.{
  ℕ, List, [], ◌∷◌, none, some, ◌≡◌, refl, ◌↔◌, ◌⊎◌, Result, ok, true, false, All, Option, map,
  filtered,
}
use hai_compnay.Common.Int.{negsuc}
use hai_compnay.Returns.Wizard.{Error}
use hai_compnay.Returns.Sale.{OrderState}
use hai_compnay.Returns.SaleOrders.{
  OrderType, Order, is_return, is_sale, action_confirm, confirm_each,
}
use hai_compnay.Returns.SaleOrders.Confirmed.{HasReturn, Each, action_confirm_iff}
use hai_compnay.Returns.Valuation
use hai_compnay.Returns.Valuation.{Delivery, Origin, ReturnMove}

abbrev order : ℕ → OrderState → Order
order id state = record {
  id = id;
  x_type = some OrderType.return_;
  state = state;
  partner_id = 3;
  commitment_date = none;
  order_line = [];
  return_states = [];
}

-- Two returns, and an order without a type.
abbrev orders : List Order
orders =
    order 1 OrderState.draft
    ∷ record (order 3 OrderState.draft) { x_type = none }
    ∷ order 2 OrderState.sent
    ∷ []

abbrev sold_now : Order → Order
sold_now o = record o { state = OrderState.sale }

-- What stands for Odoo's method: the orders are confirmed then.
abbrev confirm : Option Order → List Order → Result Error (List Order)
confirm context os = ok (map sold_now os)

abbrev sold : List Order
sold = order 1 OrderState.sale ∷ order 2 OrderState.sale ∷ []

confirmed : action_confirm confirm orders ≡ ok sold
unfolding action_confirm confirm_each
confirmed = refl

action_confirm_iff_example : (action_confirm confirm orders ≡ ok sold) ↔ (
    (HasReturn orders
      × All (λ o. is_sale o ≡ false) orders
      × Each confirm (filtered is_return orders) sold)
    ⊎ (All (λ o. is_return o ≡ false) orders × (confirm none orders ≡ ok sold)))
action_confirm_iff_example = action_confirm_iff confirm orders sold

-- Three units went out, at 600 in all.
abbrev delivery : Delivery
delivery = record { layer_value = negsuc 599; quantity = 3 }

-- One unit comes with a return of the picking, of an order from some other picking; two come for an
-- order made from the picking.
abbrev by_picking : ReturnMove
by_picking = record {
  quantity = 1;
  has_sale = true;
  x_type = some Valuation.OrderType.return_;
  return_of = some (Origin.one delivery);
  origin_move = some (Origin.one (record { layer_value = negsuc 9; quantity = 1 }));
  warehouse_cost = some 170;
}

abbrev by_order : ReturnMove
by_order = record by_picking {
  quantity = 2;
  return_of = none;
  origin_move = some (Origin.one delivery);
}
