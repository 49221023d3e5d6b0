-- ===== src/Returns/Bill/Limit.antt =====
-- The return orders of the bill wizard never send back more than was received.
use hai_compnay.Common.{
  ℕ, List, [], ◌∷◌, Option, ◌≡◌, refl, ap, ◌∙◌, false, ok, filtered, All, All₂, ◌==◌, if◌then◌else◌,
  nat_key,
}
use hai_compnay.Common.Int.{ℤ, pos, ◌+ℤ◌, ◌≤ℤ◌, total, int_laws}
use hai_compnay.Common.Dict.{Dict}
use hai_compnay.Common.Dict.Group.{group_total, total-append_by}
use hai_compnay.Returns.Returned.{back, returned_qty_of-append}
use hai_compnay.Returns.Wizard.{ReturnLine}
use hai_compnay.Returns.Wizard.Limit.{IsEdit, IsDistinct, asked, asked-le, returned-le}
use hai_compnay.Returns.Purchase.{
  PurchaseLine, PurchaseOrder, ReturnVals, PurchaseVals, ReturnedLines, is_cancelled, origin_of,
  qty_of, compute_returned_qty, prepare_purchase_line_default_values,
  prepare_purchase_default_values, create_order,
}
use hai_compnay.Returns.Purchase.Limit.{id_of, received, returned_of}
use hai_compnay.Returns.Bill.{
  BillWizard, purchase_of, bill_orders, button_create_bill_return, create_orders,
}
use hai_compnay.Returns.Bill.Grouped.{taken, grouped, button_create_bill_return_iff}

-- What line `i` gets back from values and from groups of them.
abbrev back_to : ℕ → List ReturnVals → ℤ
back_to = back origin_of qty_of is_cancelled

abbrev back_weight : ℕ → ReturnVals → ℤ
back_weight i v = if origin_of v == i then qty_of v else pos 0

compute_returned_qty-create_order :
    (order : PurchaseVals) (returned : ReturnedLines) (i : ℕ)
    → is_cancelled order.state ≡ false
    → compute_returned_qty i (create_order order returned)
      ≡ compute_returned_qty i returned +ℤ back_to i order.order_line
unfolding create_order compute_returned_qty
compute_returned_qty-create_order order returned i live =
    returned_qty_of-append origin_of qty_of is_cancelled i order.state returned order.order_line
      live

compute_returned_qty-create_orders :
    (order_of : ℕ → PurchaseOrder) (of_type : ℕ → Option ℕ) (w : BillWizard)
    (groups : Dict ℕ (List ReturnVals)) (returned : ReturnedLines) (i : ℕ)
    → compute_returned_qty i (create_orders (bill_orders order_of of_type w groups) returned)
      ≡ compute_returned_qty i returned +ℤ group_total purchase_of (back_weight i) groups
unfolding create_orders bill_orders prepare_purchase_default_values
compute_returned_qty-create_orders order_of of_type w [] returned i = omega int_laws
compute_returned_qty-create_orders order_of of_type w ((k, []) ∷ groups) returned i =
    rw (compute_returned_qty-create_orders order_of of_type w groups returned i) (omega int_laws)
compute_returned_qty-create_orders order_of of_type w ((k, v ∷ vs) ∷ groups) returned i =
    let order =
      prepare_purchase_default_values of_type w.picking_type_id w.origin_picking_id (order_of k)
        (v ∷ vs) in
    compute_returned_qty-create_orders order_of of_type w groups (create_order order returned) i
    ∙ rw (compute_returned_qty-create_order order returned i refl) (omega int_laws)

total-back_weight :
    (i : ℕ) (ls : List (ReturnLine PurchaseLine))
    → total (λ l. back_weight i (prepare_purchase_line_default_values l)) ls
      ≡ total (λ l. if id_of l.order_line == i then l.return_qty else pos 0) ls
unfolding prepare_purchase_line_default_values
total-back_weight i [] = refl
total-back_weight i (l ∷ ls) =
    ap (λ t. (if l.order_line.id == i then l.return_qty else pos 0) +ℤ t) (total-back_weight i ls)

-- Let the wizard's lines be those that it made of the lines of the purchases (which have different
-- identifiers, up-to-date returned quantities, and nothing returned beyond what was received), with
-- only quantities and selection changed. If the bill wizard then makes return orders, after the
-- creation of all of them no line of the purchases has more returned than was received.
pub button_create_bill_return-le-received :
    (order_of : ℕ → PurchaseOrder) (of_type : ℕ → Option ℕ) (lines : List PurchaseLine)
    (w : BillWizard) (returned : ReturnedLines) (orders : List PurchaseVals)
    → IsDistinct id_of received returned_of taken lines
    → All₂ (IsEdit id_of received returned_of taken) lines w.return_line_ids
    → All (λ line. line.x_returned_qty ≡ compute_returned_qty line.id returned) lines
    → All (λ line. line.x_returned_qty ≤ℤ line.qty_received) lines
    → button_create_bill_return order_of of_type w ≡ ok orders
    → All
        (λ line. compute_returned_qty line.id (create_orders orders returned) ≤ℤ line.qty_received)
        lines
button_create_bill_return-le-received order_of of_type lines w returned orders d e u h made =
    let ls = filtered taken w.return_line_ids in
    let (some_, fits, orders_are) =
      (button_create_bill_return_iff order_of of_type w orders).0 made in
    let after : (i : ℕ)
        → compute_returned_qty i (create_orders orders returned)
          ≡ compute_returned_qty i returned
            +ℤ asked id_of received returned_of taken i w.return_line_ids =
      λ i.
        ap (λ os. compute_returned_qty i (create_orders os returned)) orders_are
        ∙ compute_returned_qty-create_orders order_of of_type w (grouped ls) returned i
        ∙ rw
            (
              total-append_by purchase_of (back_weight i) prepare_purchase_line_default_values []
                  ls,
              total-back_weight i ls,
            )
            (omega int_laws) in
    returned-le id_of received returned_of taken (λ i. compute_returned_qty i returned)
      (λ i. compute_returned_qty i (create_orders orders returned)) lines w.return_line_ids u after
      (asked-le id_of received returned_of taken lines w.return_line_ids d e fits h)
