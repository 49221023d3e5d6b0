-- ===== src/Returns/Picking/Asked.antt =====
-- What a return order made from a transfer adds to the returned quantities of the order they come from.
use hai_compnay.Common.{
  ℕ, List, [], ◌∷◌, map, ◌≡◌, refl, ap, ◌∙◌, ok, filtered, ◌==◌, if◌then◌else◌,
}
use hai_compnay.Common.Int.{ℤ, pos, ◌+ℤ◌, total}
use hai_compnay.Returns.Returned.{back, returned_qty_of-append}
use hai_compnay.Returns.Sale.{
  OrderState, SaleLine, ReturnedLines, SaleVals, is_cancelled, origin_of, qty_of,
  compute_returned_qty, prepare_sale_line_default_values, prepare_sale_default_values, create_order,
}
use hai_compnay.Returns.Picking.{
  PickingLine, SalePicking, is_selected, prepare_return_picking_line,
  prepare_sale_order_return_wizard, action_wizard_sale_stock_picking_return,
}
use hai_compnay.Returns.Picking.Accepted.{action_wizard_sale_stock_picking_return_iff}

-- The quantity that the selected lines ask for, of order line `i`, in the products' purchase units.
abbrev pub asked : (ℕ → ℤ → ℕ → ℤ) → ℕ → List (PickingLine SaleLine) → ℤ
asked convert i ls =
    total (λ l. if l.order_line.id == i then convert l.uom_id l.quantity l.uom_po_id else pos 0)
      (filtered is_selected ls)

back-prepare :
    (convert : ℕ → ℤ → ℕ → ℤ) (i : ℕ) (ls : List (PickingLine SaleLine))
    → back origin_of qty_of is_cancelled i
        (map prepare_sale_line_default_values (map (prepare_return_picking_line convert) ls))
      ≡ total
          (λ l. if l.order_line.id == i then convert l.uom_id l.quantity l.uom_po_id else pos 0)
          ls
unfolding prepare_sale_line_default_values prepare_return_picking_line
back-prepare convert i [] = refl
back-prepare convert i (l ∷ ls) =
    ap (λ t. (if l.order_line.id == i then convert l.uom_id l.quantity l.uom_po_id else pos 0) +ℤ t)
      (back-prepare convert i ls)

-- If the button makes an order, then creating it adds to the returned quantity of a sale order's line,
-- whatever has gone back before, just what the selected lines of the picking ask for of it, each turned
-- into its product's purchase unit.
pub action_wizard_sale_stock_picking_return-asked :
    (convert : ℕ → ℤ → ℕ → ℤ) (p : SalePicking) (i : ℕ) (returned : ReturnedLines)
    {order : SaleVals}
    → action_wizard_sale_stock_picking_return convert p ≡ ok order
    → compute_returned_qty i (create_order order returned)
      ≡ compute_returned_qty i returned +ℤ asked convert i p.product_return_moves
unfolding prepare_sale_order_return_wizard create_order prepare_sale_default_values
    compute_returned_qty
action_wizard_sale_stock_picking_return-asked convert p i returned {order} made =
    let (fits, some_, same) =
      (action_wizard_sale_stock_picking_return_iff convert p order).0 made in
    let lines =
      map (prepare_return_picking_line convert) (filtered is_selected p.product_return_moves) in
    rw same (
      returned_qty_of-append origin_of qty_of is_cancelled i OrderState.draft returned
        (map prepare_sale_line_default_values lines) refl
      ∙ ap (λ t. compute_returned_qty i returned +ℤ t)
          (back-prepare convert i (filtered is_selected p.product_return_moves)))
