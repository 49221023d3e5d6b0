-- ===== src/Returns/Sale/Limit.antt =====
-- A return order from the wizard never takes back more than was delivered.
use hai_compnay.Common.{
  ℕ, List, [], ◌∷◌, map, ◌≡◌, refl, ap, subst, ◌∙◌, ok, filtered, All, All₂, ◌==◌, if◌then◌else◌,
  bind-Returns, ok-injective,
}
use hai_compnay.Common.Int.{ℤ, pos, ◌+ℤ◌, ◌≤ℤ◌, total}
use hai_compnay.Returns.Returned.{back, returned_qty_of-append}
use hai_compnay.Returns.Wizard.{ReturnLine, selected, return_lines}
use hai_compnay.Returns.Wizard.Accepted.{IsReturnable, return_lines_iff}
use hai_compnay.Returns.Wizard.Limit.{IsEdit, IsDistinct, IsWithin, asked, asked-le, returned-le}
use hai_compnay.Returns.Sale.{
  OrderState, SaleLine, ReturnVals, ReturnedLines, Wizard, SaleVals, is_cancelled, origin_of,
  qty_of, compute_returned_qty, get_return_line_vals, onchange_sale_id,
  prepare_sale_line_default_values, prepare_sale_default_values, button_create_return, create_order,
}

abbrev pub id_of : SaleLine → ℕ
id_of line = line.id

abbrev pub delivered : SaleLine → ℤ
delivered line = line.qty_delivered

abbrev pub returned_of : SaleLine → ℤ
returned_of line = line.x_returned_qty

back-prepare :
    (i : ℕ) (ls : List (ReturnLine SaleLine))
    → back origin_of qty_of is_cancelled i (map prepare_sale_line_default_values ls)
      ≡ total (λ l. if l.order_line.id == i then l.return_qty else pos 0) ls
unfolding prepare_sale_line_default_values
back-prepare i [] = refl
back-prepare i (l ∷ ls) =
    ap (λ t. (if l.order_line.id == i then l.return_qty else pos 0) +ℤ t) (back-prepare i ls)

IsReturnable-IsWithin :
    (ls : List (ReturnLine SaleLine))
    → All IsReturnable ls
    → All (IsWithin id_of delivered returned_of selected) ls
IsReturnable-IsWithin [] h = tt
IsReturnable-IsWithin (l ∷ ls) (h, hs) = (h.1, IsReturnable-IsWithin ls hs)

-- What the database says of a line after the order.
compute_returned_qty-create_order :
    (w : Wizard) (vals : List ReturnVals) (returned : ReturnedLines)
    → vals ≡ map prepare_sale_line_default_values (filtered selected w.return_line_ids)
    → (i : ℕ)
    → compute_returned_qty i (create_order (prepare_sale_default_values w vals) returned)
      ≡ compute_returned_qty i returned
        +ℤ asked id_of delivered returned_of selected i w.return_line_ids
unfolding create_order prepare_sale_default_values compute_returned_qty
compute_returned_qty-create_order w vals returned e i =
    returned_qty_of-append origin_of qty_of is_cancelled i OrderState.draft returned vals refl
    ∙ ap (λ t. compute_returned_qty i returned +ℤ t)
        (ap (λ vs. back origin_of qty_of is_cancelled i vs) e
          ∙ back-prepare i (filtered selected w.return_line_ids))

-- Let the wizard's lines be those that it made of the lines of an order (which have different
-- identifiers, up-to-date returned quantities, and nothing returned beyond what was delivered), with
-- only quantities and selection changed. If `button_create_return` then makes an order, after the
-- creation of that order no line of the original order has more returned than was delivered.
pub button_create_return-le-delivered :
    (lines : List SaleLine) (w : Wizard) (returned : ReturnedLines) {order : SaleVals}
    → IsDistinct id_of delivered returned_of selected lines
    → All₂ (IsEdit id_of delivered returned_of selected) lines w.return_line_ids
    → All (λ line. line.x_returned_qty ≡ compute_returned_qty line.id returned) lines
    → All (λ line. line.x_returned_qty ≤ℤ line.qty_delivered) lines
    → button_create_return w ≡ ok order
    → All
        (λ line. compute_returned_qty line.id (create_order order returned) ≤ℤ line.qty_delivered)
        lines
unfolding button_create_return
button_create_return-le-delivered lines w returned {order} d e u h made =
    let (vals, lined, built) =
      bind-Returns (return_lines prepare_sale_line_default_values w.return_line_ids) _ made in
    let (some_, fits, vals_eq) =
      (return_lines_iff prepare_sale_line_default_values w.return_line_ids vals).0 lined in
    let within = IsReturnable-IsWithin (filtered selected w.return_line_ids) fits in
    let made_order = prepare_sale_default_values w vals in
    subst
      (λ o.
        All (λ line. compute_returned_qty line.id (create_order o returned) ≤ℤ line.qty_delivered)
          lines)
      (ok-injective built)
      (returned-le id_of delivered returned_of selected (λ i. compute_returned_qty i returned)
        (λ i. compute_returned_qty i (create_order made_order returned)) lines w.return_line_ids u
        (compute_returned_qty-create_order w vals returned vals_eq)
        (asked-le id_of delivered returned_of selected lines w.return_line_ids d e within h))

-- The lines of an order as the wizard first shows them are such lines.
pub onchange_sale_id-IsEdit :
    (lines : List SaleLine)
    → All₂ (IsEdit id_of delivered returned_of selected) lines (onchange_sale_id lines)
unfolding onchange_sale_id get_return_line_vals
onchange_sale_id-IsEdit [] = tt
onchange_sale_id-IsEdit (line ∷ lines) = ((refl, refl), onchange_sale_id-IsEdit lines)
