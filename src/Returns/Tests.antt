-- ===== src/Returns/Tests.antt =====
-- The theorems on sale returns at small inputs.
pub mod Bills
pub mod Costs
pub mod Confirm
mod Pickings
mod Sales
use hai_compnay.Common.{
  ℕ, List, [], ◌∷◌, map, none, ◌≡◌, ◌≢◌, refl, ◌↔◌, arith, ok, All, true, false, filtered,
}
use hai_compnay.Common.Int.{pos, ◌≤ℤ◌, ◌+ℤ◌, ◌-ℤ◌, total}
use hai_compnay.Returns.Returned.{in_state, returned_qty_of, returned_loop}
use hai_compnay.Returns.Wizard.{ReturnLine, selected, return_lines, compute_total_remaining_qty}
use hai_compnay.Returns.Wizard.Accepted.{
  IsReturnable, return_lines_iff, compute_total_remaining_qty_lem,
}
use hai_compnay.Returns.Sale.{
  OrderState, SaleLine, ReturnVals, ReturnedLines, Wizard, SaleVals, compute_returned_qty,
  prepare_sale_line_default_values, button_create_return, prepare_sale_default_values, create_order,
}
use hai_compnay.Returns.Sale.Limit.{button_create_return-le-delivered}

abbrev line : ℕ → ℕ → ℕ → SaleLine
line id delivered returned = record {
  id = id;
  product_id = 5;
  product_uom = 1;
  qty_delivered = pos delivered;
  x_returned_qty = pos returned;
  price_unit = pos 100;
  tax_id = [];
  discount = pos 0;
}

abbrev lines : List SaleLine
lines = line 1 10 4 ∷ line 2 3 0 ∷ []

abbrev vals : ℕ → ℕ → ReturnVals
vals origin qty = record {
  product_id = 5;
  product_uom = 1;
  product_uom_qty = pos qty;
  price_unit = pos 100;
  x_origin_sale_line_id = origin;
  tax_id = [];
  discount = pos 0;
}

abbrev returned : ReturnedLines
returned = in_state OrderState.sale (vals 1 4) ∷ in_state OrderState.cancel (vals 2 3) ∷ []

-- What the user chose on the wizard's lines: 6 of the first.
abbrev return_line_ids : List (ReturnLine SaleLine)
return_line_ids =
    record {
      product_id = 5;
      uom_id = 1;
      done_qty = pos 10;
      returned_qty = pos 4;
      remaining_qty = pos 6;
      return_qty = pos 6;
      order_line = line 1 10 4;
      is_selected = true;
    }
    ∷ record {
      product_id = 5;
      uom_id = 1;
      done_qty = pos 3;
      returned_qty = pos 0;
      remaining_qty = pos 3;
      return_qty = pos 0;
      order_line = line 2 3 0;
      is_selected = false;
    }
    ∷ []

abbrev wizard : Wizard
wizard = record {
  sale = record {
    id = 12;
    partner_id = 3;
    currency_id = 23;
    x_exchange_rate = pos 1;
    date_order = 20240101;
  };
  return_line_ids = return_line_ids;
  location_id = none;
  location_warehouse = none;
  origin_picking_id = none;
}

abbrev order : SaleVals
order = record {
  x_origin_sale_id = 12;
  partner_id = 3;
  currency_id = 23;
  x_exchange_rate = pos 1;
  x_origin_picking_id = none;
  commitment_date = 20240101;
  warehouse_id = none;
  order_line = vals 1 6 ∷ [];
  state = OrderState.draft;
  x_location_id = none;
}

made : button_create_return wizard ≡ ok order
unfolding button_create_return return_lines prepare_sale_line_default_values
    prepare_sale_default_values
made = refl

up_to_date : All (λ l. l.x_returned_qty ≡ compute_returned_qty l.id returned) lines
unfolding compute_returned_qty returned_qty_of returned_loop ◌+ℤ◌
up_to_date = (refl, (refl, tt))

distinct : ◌≢◌ {A = ℕ} 1 2
distinct = λ e. omega arith

remaining_is :
    (pos 6 ≡ (line 1 10 4).qty_delivered -ℤ (line 1 10 4).x_returned_qty)
    × (pos 3 ≡ (line 2 3 0).qty_delivered -ℤ (line 2 3 0).x_returned_qty)
unfolding ◌-ℤ◌
remaining_is = (refl, refl)

button_create_return-le-delivered_example :
    All (λ l. compute_returned_qty l.id (create_order order returned) ≤ℤ l.qty_delivered) lines
button_create_return-le-delivered_example =
    button_create_return-le-delivered lines wizard returned {order = order}
      ((distinct, tt), (tt, tt)) ((refl, remaining_is.0), ((refl, remaining_is.1), tt)) up_to_date
      (omega arith, (omega arith, tt)) made
