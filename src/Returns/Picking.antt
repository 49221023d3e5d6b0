-- ===== src/Returns/Picking.antt =====
-- Returns that start from a transfer: a1_stock_return_picking/wizard/stock_return_picking.py (what the
-- two share) and a1_sale_return/wizard/stock_return_picking.py (the button that makes a return order; of
-- the one for purchases the test of its being shown alone). `convert` is the `_compute_quantity` of the units of measure: a unit, a quantity in it, and the unit wanted.
pub mod Accepted
pub mod Asked
use hai_compnay.Common.{
  ℕ, List, [], ◌∷◌, ◌++◌, map, Option, none, some, Bool, true, false, Result, ok, err, ◌>>=◌, ◌>>◌,
  raise_if, if◌then◌else◌, filtered, is_nonempty, not, ◌||◌,
}
use hai_compnay.Common.Int.{ℤ, pos, ◌+ℤ◌, ltb_ℤ}
use hai_compnay.Returns.Wizard.{ReturnLine}
use hai_compnay.Returns.Sale.{
  SaleLine, SaleOrder, SaleVals, prepare_sale_line_default_values, prepare_sale_default_values,
}

-- A line of the picking's return wizard, with what it reads of its product and of its move; `L` is
-- the order line that the move stands for.
pub record PickingLine (L : Type 0) : Type 0 where
  pub product_id : ℕ
  pub uom_id : ℕ
  pub uom_po_id : ℕ
  pub quantity : ℤ
  pub move_is_done : Bool
  pub move_quantity : ℤ
  pub move_product_uom_qty : ℤ
  pub order_line : L
  pub x_is_selected : Bool

pub data Error : Type 0 where
  exceeds_received : ℕ → Error
  nothing_selected : Error

-- `_compute_x_has_sale_order`, `_compute_x_has_purchase_order` and
-- `_compute_x_has_purchase_sale_order`: the picking's orders, and the purchase lines of the moves that
-- its own came from.
abbrev pub has : Option ℕ → Bool
has none = false
has (some order) = true

abbrev pub compute_x_has_sale_order : Option ℕ → Bool
compute_x_has_sale_order sale = has sale

abbrev pub compute_x_has_purchase_order : Option ℕ → List ℕ → Bool
compute_x_has_purchase_order purchase origin_lines = has purchase || is_nonempty origin_lines

abbrev pub compute_x_has_purchase_sale_order : Option ℕ → Option ℕ → List ℕ → Bool
compute_x_has_purchase_sale_order purchase sale origin_lines =
    has purchase || has sale || is_nonempty origin_lines

module _ {L : Type 0} where
  unfoldable pub compute_x_remaining_qty : PickingLine L → ℤ
  compute_x_remaining_qty l = if l.move_is_done then l.move_quantity else pos 0

  unfoldable pub total_selected_loop : ℤ → List (PickingLine L) → ℤ
  total_selected_loop total_qty [] = total_qty
  total_selected_loop total_qty (l ∷ ls) =
      total_selected_loop
        (if l.x_is_selected then total_qty +ℤ compute_x_remaining_qty l else total_qty) ls

  unfoldable pub compute_x_total_selected_qty : List (PickingLine L) → ℤ
  compute_x_total_selected_qty = total_selected_loop (pos 0)

  abbrev pub mark : Bool → PickingLine L → PickingLine L
  mark b l = record l { x_is_selected = b }

  unfoldable pub onchange_x_select_all : Bool → List (PickingLine L) → List (PickingLine L)
  onchange_x_select_all b = map (mark b)

  abbrev pub is_selected : PickingLine L → Bool
  is_selected l = l.x_is_selected

  -- The loop of the button over all lines.
  unfoldable pub check_quantities : List (PickingLine L) → Result Error (Unit {0})
  check_quantities [] = ok tt
  check_quantities (l ∷ ls) =
      let rest = check_quantities ls in
      if ltb_ℤ l.move_quantity l.quantity then err (exceeds_received l.product_id) else rest

  -- The lines that the button hands over: the check, then the selected lines' values.
  unfoldable pub picking_lines :
      {V : Type 0} → (PickingLine L → V) → List (PickingLine L) → Result Error (List V)
  picking_lines prepare ls = do
    check_quantities ls
    raise_if (not (is_nonempty (filtered is_selected ls))) nothing_selected
    ok (map prepare (filtered is_selected ls))

  -- The values of the return wizard's line, with the fields that it is not given at their defaults.
  unfoldable pub prepare_return_picking_line : (ℕ → ℤ → ℕ → ℤ) → PickingLine L → ReturnLine L
  prepare_return_picking_line convert l = record {
    product_id = l.product_id;
    uom_id = l.uom_po_id;
    done_qty = convert l.uom_id l.move_product_uom_qty l.uom_po_id;
    returned_qty = pos 0;
    remaining_qty = pos 0;
    return_qty = convert l.uom_id l.quantity l.uom_po_id;
    order_line = l.order_line;
    is_selected = false;
  }

-- The picking and its order, with the location that the goods come back to and its warehouse.
pub record SalePicking : Type 0 where
  pub id : ℕ
  pub sale : SaleOrder
  pub product_return_moves : List (PickingLine SaleLine)
  pub location_id : Option ℕ
  pub location_warehouse : Option ℕ

-- `_prepare_sale_order_return_wizard`, from the lines' values on.
unfoldable pub prepare_sale_order_return_wizard :
    SalePicking → List (ReturnLine SaleLine) → SaleVals
prepare_sale_order_return_wizard p lines =
    prepare_sale_default_values
      record {
        sale = p.sale;
        return_line_ids = lines;
        location_id = p.location_id;
        location_warehouse = p.location_warehouse;
        origin_picking_id = some p.id;
      }
      (map prepare_sale_line_default_values lines)

-- `action_wizard_sale_stock_picking_return`, up to the values of the new order.
unfoldable pub action_wizard_sale_stock_picking_return :
    (ℕ → ℤ → ℕ → ℤ) → SalePicking → Result Error SaleVals
action_wizard_sale_stock_picking_return convert p =
    picking_lines (prepare_return_picking_line convert) p.product_return_moves >>= λ lines.
    ok (prepare_sale_order_return_wizard p lines)
