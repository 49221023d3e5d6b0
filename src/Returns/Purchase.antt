-- ===== src/Returns/Purchase.antt =====
-- Purchase returns: a1_purchase_return/models/purchase_order_line.py (the returned quantity of an
-- order line) and a1_purchase_return/wizard/purchase_return_wizard.py (the wizard that makes a return
-- order from one order).
pub mod Limit
use hai_compnay.Common.{
  ℕ, List, [], ◌∷◌, ◌++◌, map, Option, none, some, Bool, true, false, Result, ok, err, ◌>>=◌,
}
use hai_compnay.Common.Int.{ℤ, pos, ◌-ℤ◌}
use hai_compnay.Returns.Returned.{ReturnedLine, in_state, returned_qty_of}
use hai_compnay.Returns.Wizard.{ReturnLine, Error, return_lines}

-- The states of a purchase order.
pub data OrderState : Type 0 where
  draft sent to_approve purchase done cancel : OrderState

abbrev pub is_cancelled : OrderState → Bool
is_cancelled OrderState.cancel = true
is_cancelled _ = false

pub record PurchaseLine : Type 0 where
  pub id : ℕ
  pub order_id : ℕ
  pub product_id : ℕ
  pub product_uom : ℕ
  pub qty_received : ℤ
  pub x_returned_qty : ℤ
  pub price_unit : ℤ
  pub taxes_id : List ℕ
  pub discount : ℤ

-- What the wizards read of an order that goods go back for.
pub record PurchaseOrder : Type 0 where
  pub id : ℕ
  pub partner_id : ℕ
  pub currency_id : ℕ
  pub x_exchange_rate : ℤ
  pub picking_type_id : Option ℕ
  pub order_line : List PurchaseLine

-- The values of a line of a return order, as `_prepare_purchase_line_default_values` gives them.
pub record ReturnVals : Type 0 where
  pub product_id : ℕ
  pub product_uom : ℕ
  pub product_qty : ℤ
  pub price_unit : ℤ
  pub x_origin_purchase_line_id : ℕ
  pub taxes_id : List ℕ
  pub discount : ℤ

-- The values of a return order; its type is `return`.
pub record PurchaseVals : Type 0 where
  pub x_origin_purchase_id : ℕ
  pub partner_id : ℕ
  pub currency_id : ℕ
  pub x_exchange_rate : ℤ
  pub x_origin_picking_id : Option ℕ
  pub order_line : List ReturnVals
  pub picking_type_id : Option ℕ
  pub state : OrderState

abbrev pub origin_of : ReturnVals → ℕ
origin_of v = v.x_origin_purchase_line_id

abbrev pub qty_of : ReturnVals → ℤ
qty_of v = v.product_qty

-- The lines of return orders that the database holds.
abbrev pub ReturnedLines : Type 0
ReturnedLines = List (ReturnedLine ReturnVals OrderState)

unfoldable pub compute_returned_qty : ℕ → ReturnedLines → ℤ
compute_returned_qty = returned_qty_of origin_of qty_of is_cancelled

-- The values of the wizard's line for an order line, in `_onchange_purchase_id`.
unfoldable pub new_return_line : PurchaseLine → ReturnLine PurchaseLine
new_return_line line = record {
  product_id = line.product_id;
  uom_id = line.product_uom;
  done_qty = line.qty_received;
  returned_qty = line.x_returned_qty;
  remaining_qty = line.qty_received -ℤ line.x_returned_qty;
  return_qty = pos 0;
  order_line = line;
  is_selected = false;
}

unfoldable pub prepare_purchase_line_default_values : ReturnLine PurchaseLine → ReturnVals
prepare_purchase_line_default_values l = record {
  product_id = l.product_id;
  product_uom = l.uom_id;
  product_qty = l.return_qty;
  price_unit = l.order_line.price_unit;
  x_origin_purchase_line_id = l.order_line.id;
  taxes_id = l.order_line.taxes_id;
  discount = l.order_line.discount;
}

pub record Wizard : Type 0 where
  pub purchase : PurchaseOrder
  pub return_line_ids : List (ReturnLine PurchaseLine)
  pub picking_type_id : Option ℕ
  pub origin_picking_id : Option ℕ

-- `return_picking_type_id` of a picking type that may be empty; `of_type` reads the field.
abbrev pub return_picking_type : (ℕ → Option ℕ) → Option ℕ → Option ℕ
return_picking_type of_type none = none
return_picking_type of_type (some t) = of_type t

-- `self.picking_type_id.return_picking_type_id.id if self.picking_type_id else …`
abbrev pub chosen_picking_type : (ℕ → Option ℕ) → Option ℕ → PurchaseOrder → Option ℕ
chosen_picking_type of_type none order = return_picking_type of_type order.picking_type_id
chosen_picking_type of_type (some t) order = of_type t

-- `_onchange_purchase_id`
unfoldable pub onchange_purchase_id : (ℕ → Option ℕ) → PurchaseOrder → Wizard → Wizard
onchange_purchase_id of_type order w = record w {
  purchase = order;
  picking_type_id = return_picking_type of_type order.picking_type_id;
  return_line_ids = map new_return_line order.order_line;
}

unfoldable pub prepare_purchase_default_values :
    (ℕ → Option ℕ) → Option ℕ → Option ℕ → PurchaseOrder → List ReturnVals → PurchaseVals
prepare_purchase_default_values of_type picking_type origin_picking order vals = record {
  x_origin_purchase_id = order.id;
  partner_id = order.partner_id;
  currency_id = order.currency_id;
  x_exchange_rate = order.x_exchange_rate;
  x_origin_picking_id = origin_picking;
  order_line = vals;
  picking_type_id = chosen_picking_type of_type picking_type order;
  state = OrderState.draft;
}

unfoldable pub button_create_return : (ℕ → Option ℕ) → Wizard → Result Error PurchaseVals
button_create_return of_type w =
    return_lines prepare_purchase_line_default_values w.return_line_ids >>= λ vals.
    ok (
      prepare_purchase_default_values of_type w.picking_type_id w.origin_picking_id w.purchase vals)

-- The database after an order has been created.
unfoldable pub create_order : PurchaseVals → ReturnedLines → ReturnedLines
create_order order returned = returned ++ map (in_state order.state) order.order_line
