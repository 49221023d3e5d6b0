-- ===== src/Returns/Bill.antt =====
-- Returns from a vendor bill: a1_purchase_return/wizard/purchase_bill_return_wizard.py, which makes one
-- return order for each purchase order behind the bill.
pub mod Grouped
pub mod Limit
pub mod Single
use hai_compnay.Common.{
  ℕ, List, [], ◌∷◌, ◌++◌, map, Option, Bool, Result, ok, err, ◌>>=◌, ◌>>◌, raise_if, if◌then◌else◌,
  filtered, is_nonempty, not, nat_key,
}
use hai_compnay.Common.Int.{ℤ, pos, ltb_ℤ, leb_ℤ}
use hai_compnay.Common.Dict.{Dict, modify}
use hai_compnay.Returns.Wizard.{
  ReturnLine, Error, exceeds_remaining, not_positive, nothing_selected, no_quantity, selected,
}
use hai_compnay.Returns.Purchase.{
  PurchaseLine, PurchaseOrder, ReturnVals, PurchaseVals, ReturnedLines, new_return_line,
  prepare_purchase_line_default_values, prepare_purchase_default_values, create_order,
}

pub record BillWizard : Type 0 where
  pub purchase_ids : List PurchaseOrder
  pub return_line_ids : List (ReturnLine PurchaseLine)
  pub picking_type_id : Option ℕ
  pub origin_picking_id : Option ℕ

-- The lines of `_onchange_purchase_ids`, order by order.
unfoldable pub onchange_purchase_ids : List PurchaseOrder → List (ReturnLine PurchaseLine)
onchange_purchase_ids [] = []
onchange_purchase_ids (order ∷ orders) =
    map new_return_line order.order_line ++ onchange_purchase_ids orders

abbrev pub purchase_of : ReturnLine PurchaseLine → ℕ
purchase_of l = l.order_line.order_id

-- The dict with the values of a line added under its purchase.
abbrev pub add_vals : ReturnLine PurchaseLine → Dict ℕ (List ReturnVals) → Dict ℕ (List ReturnVals)
add_vals l = modify (purchase_of l) (λ vs. vs ++ prepare_purchase_line_default_values l ∷ []) []

-- The loop of `button_create_return` over the selected lines; `list_line_vals` is the dict.
unfoldable pub bill_loop :
    Dict ℕ (List ReturnVals)
    → List (ReturnLine PurchaseLine)
    → Result Error (Dict ℕ (List ReturnVals))
bill_loop list_line_vals [] = ok list_line_vals
bill_loop list_line_vals (l ∷ ls) =
    let added = bill_loop (add_vals l list_line_vals) ls in
    let skipped = bill_loop list_line_vals ls in
    if ltb_ℤ (pos 0) l.return_qty
    then (if ltb_ℤ l.remaining_qty l.return_qty
        then err (exceeds_remaining l.product_id)
        else if leb_ℤ l.return_qty (pos 0)
        then err (not_positive l.product_id)
        else added)
    else skipped

-- The loop over the dict's items; `order_of` reads an order, `of_type` a picking type's return type.
unfoldable pub bill_orders :
    (ℕ → PurchaseOrder) → (ℕ → Option ℕ) → BillWizard → Dict ℕ (List ReturnVals) → List PurchaseVals
bill_orders order_of of_type w [] = []
bill_orders order_of of_type w ((purchase, vals) ∷ groups) =
    let rest = bill_orders order_of of_type w groups in
    if not (is_nonempty vals)
    then rest
    else prepare_purchase_default_values of_type w.picking_type_id w.origin_picking_id
        (order_of purchase) vals
      ∷ rest

unfoldable pub button_create_bill_return :
    (ℕ → PurchaseOrder) → (ℕ → Option ℕ) → BillWizard → Result Error (List PurchaseVals)
unfolding bill_loop
button_create_bill_return order_of of_type w = do
  raise_if (not (is_nonempty (filtered selected w.return_line_ids))) nothing_selected
  list_line_vals ← bill_loop [] (filtered selected w.return_line_ids)
  raise_if (not (is_nonempty list_line_vals)) no_quantity
  ok (bill_orders order_of of_type w list_line_vals)

-- The database after the orders have been created, one after the other.
unfoldable pub create_orders : List PurchaseVals → ReturnedLines → ReturnedLines
create_orders [] returned = returned
create_orders (order ∷ orders) returned = create_orders orders (create_order order returned)
