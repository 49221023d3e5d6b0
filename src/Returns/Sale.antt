-- ===== src/Returns/Sale.antt =====
-- Sale returns: a1_sale_return/models/sale_order_line.py (the returned quantity of an order line) and
-- a1_sale_return/wizard/sale_return_wizard.py (the wizard that makes a return order).
pub mod Limit
use hai_compnay.Common.{
  ℕ, List, [], ◌∷◌, ◌++◌, map, Option, none, some, Bool, true, false, Result, ok, err, ◌>>=◌,
  if◌then◌else◌, ◌==◌, not, ◌&&◌,
}
use hai_compnay.Common.Int.{ℤ, pos, ◌+ℤ◌, ◌-ℤ◌}
use hai_compnay.Returns.Returned.{ReturnedLine, in_state, returned_qty_of}
use hai_compnay.Returns.Wizard.{ReturnLine, Error, return_lines}

-- The states of a sale order.
pub data OrderState : Type 0 where
  draft sent sale cancel : OrderState

abbrev pub is_cancelled : OrderState → Bool
is_cancelled OrderState.cancel = true
is_cancelled _ = false

pub record SaleLine : Type 0 where
  pub id : ℕ
  pub product_id : ℕ
  pub product_uom : ℕ
  pub qty_delivered : ℤ
  pub x_returned_qty : ℤ
  pub price_unit : ℤ
  pub tax_id : List ℕ
  pub discount : ℤ

-- The values of a line of a return order, as `_prepare_sale_line_default_values` gives them.
pub record ReturnVals : Type 0 where
  pub product_id : ℕ
  pub product_uom : ℕ
  pub product_uom_qty : ℤ
  pub price_unit : ℤ
  pub x_origin_sale_line_id : ℕ
  pub tax_id : List ℕ
  pub discount : ℤ

abbrev pub origin_of : ReturnVals → ℕ
origin_of v = v.x_origin_sale_line_id

abbrev pub qty_of : ReturnVals → ℤ
qty_of v = v.product_uom_qty

-- The lines of return orders that the database holds.
abbrev pub ReturnedLines : Type 0
ReturnedLines = List (ReturnedLine ReturnVals OrderState)

unfoldable pub compute_returned_qty : ℕ → ReturnedLines → ℤ
compute_returned_qty = returned_qty_of origin_of qty_of is_cancelled

unfoldable pub get_return_line_vals : SaleLine → ReturnLine SaleLine
get_return_line_vals line = record {
  product_id = line.product_id;
  uom_id = line.product_uom;
  done_qty = line.qty_delivered;
  returned_qty = line.x_returned_qty;
  remaining_qty = line.qty_delivered -ℤ line.x_returned_qty;
  return_qty = pos 0;
  order_line = line;
  is_selected = false;
}

-- `_onchange_sale_id`, for a chosen order with these lines.
unfoldable pub onchange_sale_id : List SaleLine → List (ReturnLine SaleLine)
onchange_sale_id = map get_return_line_vals

unfoldable pub prepare_sale_line_default_values : ReturnLine SaleLine → ReturnVals
prepare_sale_line_default_values l = record {
  product_id = l.product_id;
  product_uom = l.uom_id;
  product_uom_qty = l.return_qty;
  price_unit = l.order_line.price_unit;
  x_origin_sale_line_id = l.order_line.id;
  tax_id = l.order_line.tax_id;
  discount = l.order_line.discount;
}

-- What the wizard reads of the order that goods come back from.
pub record SaleOrder : Type 0 where
  pub id : ℕ
  pub partner_id : ℕ
  pub currency_id : ℕ
  pub x_exchange_rate : ℤ
  pub date_order : ℕ

pub record Wizard : Type 0 where
  pub sale : SaleOrder
  pub return_line_ids : List (ReturnLine SaleLine)
  pub location_id : Option ℕ
  pub location_warehouse : Option ℕ
  pub origin_picking_id : Option ℕ

-- The values of the return order; its type is `return`.
pub record SaleVals : Type 0 where
  pub x_origin_sale_id : ℕ
  pub partner_id : ℕ
  pub currency_id : ℕ
  pub x_exchange_rate : ℤ
  pub x_origin_picking_id : Option ℕ
  pub commitment_date : ℕ
  pub warehouse_id : Option ℕ
  pub order_line : List ReturnVals
  pub state : OrderState
  pub x_location_id : Option ℕ

unfoldable pub prepare_sale_default_values : Wizard → List ReturnVals → SaleVals
prepare_sale_default_values w vals = record {
  x_origin_sale_id = w.sale.id;
  partner_id = w.sale.partner_id;
  currency_id = w.sale.currency_id;
  x_exchange_rate = w.sale.x_exchange_rate;
  x_origin_picking_id = w.origin_picking_id;
  commitment_date = w.sale.date_order;
  warehouse_id = w.location_warehouse;
  order_line = vals;
  state = OrderState.draft;
  x_location_id = w.location_id;
}

unfoldable pub button_create_return : Wizard → Result Error SaleVals
button_create_return w = return_lines prepare_sale_line_default_values w.return_line_ids >>= λ vals.
    ok (prepare_sale_default_values w vals)

-- The database after the order has been created.
unfoldable pub create_order : SaleVals → ReturnedLines → ReturnedLines
create_order order returned = returned ++ map (in_state order.state) order.order_line
