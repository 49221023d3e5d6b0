-- ===== src/Returns/Tests/Bills.antt =====
-- The theorems on purchase returns at small inputs: a bill for two purchases.
use hai_compnay.Common.{
  ℕ, List, [], ◌∷◌, none, some, Option, ◌≡◌, ◌≢◌, refl, ◌↔◌, arith, ok, ◌>>=◌, All, true, Bool,
  filtered, ◌==◌, if◌then◌else◌,
}
use hai_compnay.Common.Int.{pos, ◌≤ℤ◌, ◌+ℤ◌, ◌-ℤ◌, total}
use hai_compnay.Returns.Returned.{in_state, returned_qty_of, returned_loop}
use hai_compnay.Returns.Wizard.{ReturnLine, return_lines}
use hai_compnay.Returns.Purchase.{
  OrderState, PurchaseLine, PurchaseOrder, ReturnVals, PurchaseVals, ReturnedLines, Wizard,
  compute_returned_qty, prepare_purchase_line_default_values, prepare_purchase_default_values,
  button_create_return, create_order, qty_of,
}
use hai_compnay.Returns.Purchase.Limit.{button_create_return-le-received}
use hai_compnay.Returns.Bill.{
  BillWizard, purchase_of, bill_orders, button_create_bill_return, create_orders,
}
use hai_compnay.Returns.Bill.Grouped.{
  taken, IsWithin, grouped, order_total, button_create_bill_return_iff,
  button_create_bill_return-total,
}
use hai_compnay.Returns.Bill.Limit.{button_create_bill_return-le-received}
use hai_compnay.Returns.Bill.Single.{button_create_bill_return-single}

abbrev line : ℕ → ℕ → ℕ → ℕ → PurchaseLine
line id order received returned = record {
  id = id;
  order_id = order;
  product_id = 5;
  product_uom = 1;
  qty_received = pos received;
  x_returned_qty = pos returned;
  price_unit = pos 100;
  taxes_id = [];
  discount = pos 0;
}

abbrev order_of : ℕ → PurchaseOrder
order_of i = record {
  id = i;
  partner_id = 3;
  currency_id = 23;
  x_exchange_rate = pos 1;
  picking_type_id = some 8;
  order_line = [];
}

abbrev of_type : ℕ → Option ℕ
of_type t = some 9

abbrev vals : ℕ → ℕ → ReturnVals
vals origin qty = record {
  product_id = 5;
  product_uom = 1;
  product_qty = pos qty;
  price_unit = pos 100;
  x_origin_purchase_line_id = origin;
  taxes_id = [];
  discount = pos 0;
}

abbrev wizard_line : PurchaseLine → ℕ → ℕ → Bool → ReturnLine PurchaseLine
wizard_line l remaining qty chosen = record {
  product_id = 5;
  uom_id = 1;
  done_qty = l.qty_received;
  returned_qty = l.x_returned_qty;
  remaining_qty = pos remaining;
  return_qty = pos qty;
  order_line = l;
  is_selected = chosen;
}

abbrev lines : List PurchaseLine
lines = line 1 60 10 4 ∷ line 2 61 3 0 ∷ []

abbrev returned : ReturnedLines
returned = in_state OrderState.purchase (vals 1 4) ∷ in_state OrderState.cancel (vals 2 3) ∷ []

abbrev return_line_ids : List (ReturnLine PurchaseLine)
return_line_ids = wizard_line (line 1 60 10 4) 6 6 true ∷ wizard_line (line 2 61 3 0) 3 2 true ∷ []

abbrev wizard : BillWizard
wizard = record {
  purchase_ids = order_of 60 ∷ order_of 61 ∷ [];
  return_line_ids = return_line_ids;
  picking_type_id = none;
  origin_picking_id = none;
}

abbrev return_order : ℕ → List ReturnVals → PurchaseVals
return_order purchase ls = record {
  x_origin_purchase_id = purchase;
  partner_id = 3;
  currency_id = 23;
  x_exchange_rate = pos 1;
  x_origin_picking_id = none;
  order_line = ls;
  picking_type_id = some 9;
  state = OrderState.draft;
}

abbrev orders : List PurchaseVals
orders = return_order 60 (vals 1 6 ∷ []) ∷ return_order 61 (vals 2 2 ∷ []) ∷ []

button_create_bill_return_iff_example :
    let ls = filtered taken return_line_ids in
    (button_create_bill_return order_of of_type wizard ≡ ok orders)
    ↔ ((ls ≢ []) × All IsWithin ls × (orders ≡ bill_orders order_of of_type wizard (grouped ls)))
button_create_bill_return_iff_example = button_create_bill_return_iff order_of of_type wizard orders

made : button_create_bill_return order_of of_type wizard ≡ ok orders
unfolding button_create_bill_return bill_orders prepare_purchase_line_default_values
    prepare_purchase_default_values
made = refl

button_create_bill_return-total_example :
    order_total qty_of 61 orders
    ≡ total
        (λ l.
          if purchase_of l == 61 then qty_of (prepare_purchase_line_default_values l) else pos 0)
        (filtered taken return_line_ids)
button_create_bill_return-total_example =
    button_create_bill_return-total order_of of_type wizard orders qty_of 61 (λ i. refl) made

up_to_date : All (λ l. l.x_returned_qty ≡ compute_returned_qty l.id returned) lines
unfolding compute_returned_qty returned_qty_of returned_loop ◌+ℤ◌
up_to_date = (refl, (refl, tt))

distinct : ◌≢◌ {A = ℕ} 1 2
distinct = λ e. omega arith

remaining_is :
    (pos 6 ≡ (line 1 60 10 4).qty_received -ℤ (line 1 60 10 4).x_returned_qty)
    × (pos 3 ≡ (line 2 61 3 0).qty_received -ℤ (line 2 61 3 0).x_returned_qty)
unfolding ◌-ℤ◌
remaining_is = (refl, refl)

button_create_bill_return-le-received_example :
    All (λ l. compute_returned_qty l.id (create_orders orders returned) ≤ℤ l.qty_received) lines
button_create_bill_return-le-received_example =
    button_create_bill_return-le-received order_of of_type lines wizard returned orders
      ((distinct, tt), (tt, tt)) ((refl, remaining_is.0), ((refl, remaining_is.1), tt)) up_to_date
      (omega arith, (omega arith, tt)) made

-- The wizard from one order.
abbrev single : Wizard
single = record {
  purchase = order_of 60;
  return_line_ids = wizard_line (line 1 60 10 4) 6 6 true ∷ [];
  picking_type_id = none;
  origin_picking_id = none;
}

made_single : button_create_return of_type single ≡ ok (return_order 60 (vals 1 6 ∷ []))
unfolding button_create_return return_lines prepare_purchase_line_default_values
    prepare_purchase_default_values
made_single = refl

button_create_return-le-received_example :
    All
      (λ l.
        compute_returned_qty l.id (create_order (return_order 60 (vals 1 6 ∷ [])) returned)
        ≤ℤ l.qty_received)
      (line 1 60 10 4 ∷ [])
button_create_return-le-received_example =
    button_create_return-le-received of_type (line 1 60 10 4 ∷ []) single returned
      {order = return_order 60 (vals 1 6 ∷ [])} (tt, tt) ((refl, remaining_is.0), tt)
      (up_to_date.0, tt) (omega arith, tt) made_single

abbrev single_bill : BillWizard
single_bill = record {
  purchase_ids = order_of 60 ∷ [];
  return_line_ids = single.return_line_ids;
  picking_type_id = none;
  origin_picking_id = none;
}

button_create_bill_return-single_example :
    button_create_bill_return order_of of_type single_bill
    ≡ (button_create_return of_type single >>= λ order. ok (order ∷ []))
button_create_bill_return-single_example =
    button_create_bill_return-single order_of of_type single single_bill refl refl refl refl
      ((refl, omega arith), tt)
