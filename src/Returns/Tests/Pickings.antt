-- ===== src/Returns/Tests/Pickings.antt =====
-- The theorems on returns from a transfer at small inputs.
use hai_compnay.Common.{ℕ, [], ◌∷◌, some, ◌≡◌, ◌≢◌, refl, ◌↔◌, ok, err, All, true, filtered}
use hai_compnay.Common.Int.{ℤ, pos, ◌+ℤ◌}
use hai_compnay.Returns.Returned.{returned_qty_of, returned_loop}
use hai_compnay.Returns.Sale.{
  SaleLine, SaleVals, compute_returned_qty, create_order, prepare_sale_line_default_values,
  prepare_sale_default_values,
}
use hai_compnay.Returns.Picking.{
  PickingLine, SalePicking, exceeds_received, is_selected, check_quantities, picking_lines,
  prepare_return_picking_line, prepare_sale_order_return_wizard,
  action_wizard_sale_stock_picking_return,
}
use hai_compnay.Returns.Picking.Accepted.{
  IsReceived, order_of, action_wizard_sale_stock_picking_return_iff,
}
use hai_compnay.Returns.Picking.Asked.{asked, action_wizard_sale_stock_picking_return-asked}

abbrev line : SaleLine
line = record {
  id = 1;
  product_id = 5;
  product_uom = 1;
  qty_delivered = pos 3;
  x_returned_qty = pos 0;
  price_unit = pos 100;
  tax_id = [];
  discount = pos 0;
}

abbrev asks : ℤ → PickingLine SaleLine
asks quantity = record {
  product_id = 5;
  uom_id = 1;
  uom_po_id = 1;
  quantity = quantity;
  move_is_done = true;
  move_quantity = pos 3;
  move_product_uom_qty = pos 3;
  order_line = line;
  x_is_selected = true;
}

abbrev same_unit : ℕ → ℤ → ℕ → ℤ
same_unit unit quantity wanted = quantity

abbrev picking : SalePicking
picking = record {
  id = 8;
  sale = record {
    id = 2;
    partner_id = 4;
    currency_id = 1;
    x_exchange_rate = pos 1;
    date_order = 7;
  };
  product_return_moves = asks (pos 2) ∷ [];
  location_id = some 6;
  location_warehouse = some 3;
}

too_many : picking_lines is_selected (asks (pos 4) ∷ []) ≡ err (exceeds_received 5)
unfolding picking_lines check_quantities
too_many = refl

abbrev order : SaleVals
order =
    prepare_sale_order_return_wizard picking
      (prepare_return_picking_line same_unit (asks (pos 2)) ∷ [])

made : action_wizard_sale_stock_picking_return same_unit picking ≡ ok order
unfolding action_wizard_sale_stock_picking_return picking_lines check_quantities
made = refl

action_wizard_sale_stock_picking_return_iff_example :
    (action_wizard_sale_stock_picking_return same_unit picking ≡ ok order) ↔ (
      All IsReceived (asks (pos 2) ∷ [])
      × (filtered is_selected (asks (pos 2) ∷ []) ≢ [])
      × (order ≡ order_of same_unit picking))
action_wizard_sale_stock_picking_return_iff_example =
    action_wizard_sale_stock_picking_return_iff same_unit picking order

action_wizard_sale_stock_picking_return-asked_example :
    compute_returned_qty 1 (create_order order [])
    ≡ compute_returned_qty 1 [] +ℤ asked same_unit 1 (asks (pos 2) ∷ [])
action_wizard_sale_stock_picking_return-asked_example =
    action_wizard_sale_stock_picking_return-asked same_unit picking 1 [] made

-- The same picking accepts a second order of two: four units go back of the three that were delivered.
over_returned : compute_returned_qty 1 (create_order order (create_order order [])) ≡ pos 4
unfolding compute_returned_qty returned_qty_of returned_loop create_order
    prepare_sale_order_return_wizard prepare_sale_default_values prepare_sale_line_default_values
    prepare_return_picking_line ◌+ℤ◌
over_returned = refl
