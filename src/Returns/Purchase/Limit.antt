-- ===== src/Returns/Purchase/Limit.antt =====
-- A return order from the wizard never sends back more than was received.
use hai_compnay.Common.{
  ℕ, Option, List, [], ◌∷◌, map, ◌≡◌, refl, ap, subst, ◌∙◌, ok, filtered, All, All₂, ◌==◌,
  if◌then◌else◌, bind-Returns, ok-injective,
}
use hai_compnay.Common.Int.{ℤ, pos, ◌+ℤ◌, ◌≤ℤ◌, total}
use hai_compnay.Returns.Returned.{back, returned_qty_of-append}
use hai_compnay.Returns.Wizard.{ReturnLine, selected, return_lines}
use hai_compnay.Returns.Wizard.Accepted.{IsReturnable, return_lines_iff}
use hai_compnay.Returns.Wizard.Limit.{IsEdit, IsDistinct, IsWithin, asked, asked-le, returned-le}
use hai_compnay.Returns.Purchase.{
  OrderState, PurchaseLine, ReturnVals, ReturnedLines, Wizard, PurchaseVals, is_cancelled,
  origin_of, qty_of, compute_returned_qty, new_return_line, prepare_purchase_line_default_values,
  prepare_purchase_default_values, button_create_return, create_order,
}

abbrev pub id_of : PurchaseLine → ℕ
id_of line = line.id

abbrev pub received : PurchaseLine → ℤ
received line = line.qty_received

abbrev pub returned_of : PurchaseLine → ℤ
returned_of line = line.x_returned_qty

back-prepare :
    (i : ℕ) (ls : List (ReturnLine PurchaseLine))
    → back origin_of qty_of is_cancelled i (map prepare_purchase_line_default_values ls)
      ≡ total (λ l. if l.order_line.id == i then l.return_qty else pos 0) ls
unfolding prepare_purchase_line_default_values
back-prepare i [] = refl
back-prepare i (l ∷ ls) =
    ap (λ t. (if l.order_line.id == i then l.return_qty else pos 0) +ℤ t) (back-prepare i ls)

IsReturnable-IsWithin :
    (ls : List (ReturnLine PurchaseLine))
    → All IsReturnable ls
    → All (IsWithin id_of received returned_of selected) ls
IsReturnable-IsWithin [] h = tt
IsReturnable-IsWithin (l ∷ ls) (h, hs) = (h.1, IsReturnable-IsWithin ls hs)

abbrev made_order : (ℕ → Option ℕ) → Wizard → List ReturnVals → PurchaseVals
made_order of_type w vals =
    prepare_purchase_default_values of_type w.picking_type_id w.origin_picking_id w.purchase vals

-- What the database says of a line after the order.
compute_returned_qty-create_order :
    (of_type : ℕ → Option ℕ) (w : Wizard) (vals : List ReturnVals) (returned : ReturnedLines)
    → vals ≡ map prepare_purchase_line_default_values (filtered selected w.return_line_ids)
    → (i : ℕ)
    → compute_returned_qty i (create_order (made_order of_type w vals) returned)
      ≡ compute_returned_qty i returned
        +ℤ asked id_of received returned_of selected i w.return_line_ids
unfolding create_order prepare_purchase_default_values compute_returned_qty
compute_returned_qty-create_order of_type w vals returned e i =
    returned_qty_of-append origin_of qty_of is_cancelled i OrderState.draft returned vals refl
    ∙ ap (λ t. compute_returned_qty i returned +ℤ t)
        (ap (λ vs. back origin_of qty_of is_cancelled i vs) e
          ∙ back-prepare i (filtered selected w.return_line_ids))

-- Let the wizard's lines be those that it made of the lines of an order (which have different
-- identifiers, up-to-date returned quantities, and nothing returned beyond what was received), with
-- only quantities and selection changed. If `button_create_return` then makes an order, after the
-- creation of that order no line of the original order has more returned than was received.
pub button_create_return-le-received :
    (of_type : ℕ → Option ℕ) (lines : List PurchaseLine) (w : Wizard) (returned : ReturnedLines)
    {order : PurchaseVals}
    → IsDistinct id_of received returned_of selected lines
    → All₂ (IsEdit id_of received returned_of selected) lines w.return_line_ids
    → All (λ line. line.x_returned_qty ≡ compute_returned_qty line.id returned) lines
    → All (λ line. line.x_returned_qty ≤ℤ line.qty_received) lines
    → button_create_return of_type w ≡ ok order
    → All
        (λ line. compute_returned_qty line.id (create_order order returned) ≤ℤ line.qty_received)
        lines
unfolding button_create_return
button_create_return-le-received of_type lines w returned {order} d e u h made =
    let (vals, lined, built) =
      bind-Returns (return_lines prepare_purchase_line_default_values w.return_line_ids) _ made in
    let (some_, fits, vals_eq) =
      (return_lines_iff prepare_purchase_line_default_values w.return_line_ids vals).0 lined in
    let within = IsReturnable-IsWithin (filtered selected w.return_line_ids) fits in
    subst
      (λ o.
        All (λ line. compute_returned_qty line.id (create_order o returned) ≤ℤ line.qty_received)
          lines)
      (ok-injective built)
      (returned-le id_of received returned_of selected (λ i. compute_returned_qty i returned)
        (λ i. compute_returned_qty i (create_order (made_order of_type w vals) returned)) lines
        w.return_line_ids u (compute_returned_qty-create_order of_type w vals returned vals_eq)
        (asked-le id_of received returned_of selected lines w.return_line_ids d e within h))

map-new_return_line-IsEdit :
    (lines : List PurchaseLine)
    → All₂ (IsEdit id_of received returned_of selected) lines (map new_return_line lines)
unfolding new_return_line
map-new_return_line-IsEdit [] = tt
map-new_return_line-IsEdit (line ∷ lines) = ((refl, refl), map-new_return_line-IsEdit lines)
