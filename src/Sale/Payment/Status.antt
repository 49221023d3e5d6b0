-- ===== src/Sale/Payment/Status.antt =====
-- When a sale order is fully or partially paid.
use hai_compnay.Common.{
  List, [], ◌∷◌, ◌≡◌, arith, Bool, true, false, if◌then◌else◌, any, all, is_nonempty, ◌&&◌, ◌||◌,
}
use hai_compnay.Common.Int.{ℤ, pos, ltb_ℤ, eqb_ℤ}
use hai_compnay.Sale.Payment.{
  PaymentStatus, OrderLine, InvoiceLine, Order, Flags, invoiced_qty, status_step, status_loop,
  compute_x_payment_status,
}

-- What a round adds to the flags: `full` stays only on equality, and one of the other two is set
-- when something is invoiced.
status_step_lem :
    (f : Flags) (ordered invoiced : ℤ)
    → let r = status_step f ordered invoiced in
      (r.full ≡ (f.full && eqb_ℤ invoiced ordered))
      × ((r.partial || r.has_invoice) ≡ ((f.partial || f.has_invoice) || ltb_ℤ (pos 0) invoiced))
unfolding status_step
status_step_lem f ordered invoiced =
    go f.full f.partial f.has_invoice (eqb_ℤ invoiced ordered) (ltb_ℤ (pos 0) invoiced)
  where
    go :
        (full partial has_invoice same some_ : Bool)
        → let invoice = if some_ then true else has_invoice in
          let r : Flags =
            if same
            then record { full = full; partial = partial; has_invoice = invoice }
            else if some_
            then record { full = false; partial = true; has_invoice = invoice }
            else record { full = false; partial = partial; has_invoice = invoice } in
          (r.full ≡ (full && same))
          × ((r.partial || r.has_invoice) ≡ ((partial || has_invoice) || some_))
    go full partial has_invoice true true = ground arith
    go full partial has_invoice true false = ground arith
    go full partial has_invoice false true = ground arith
    go full partial has_invoice false false = ground arith

module _ (database : List InvoiceLine) (order : Order) where
  -- The line is invoiced to the quantity that was ordered; something of it is invoiced.
  abbrev pub is_complete : OrderLine → Bool
  is_complete l = eqb_ℤ (invoiced_qty database order l) l.product_uom_qty

  abbrev pub is_started : OrderLine → Bool
  is_started l = ltb_ℤ (pos 0) (invoiced_qty database order l)

  status_loop_lem :
      (f : Flags) (ls : List OrderLine)
      → let r = status_loop database order f ls in
        (r.full ≡ (f.full && all is_complete ls))
        × ((r.partial || r.has_invoice) ≡ ((f.partial || f.has_invoice) || any is_started ls))
  unfolding status_loop
  status_loop_lem f [] = ground arith
  status_loop_lem f (l ∷ ls) =
      let step = status_step_lem f l.product_uom_qty (invoiced_qty database order l) in
      let rest =
        status_loop_lem (status_step f l.product_uom_qty (invoiced_qty database order l)) ls in
      ground (arith, step, rest)

  -- An order is fully paid exactly when it has an invoice and every line is invoiced, in posted
  -- invoices, to just the ordered quantity; partially exactly when it has an invoice, some line is
  -- not so, and something of some line is invoiced; and unpaid otherwise.
  pub compute_x_payment_status_lem :
      let ls = order.order_line in
      let has_invoices = is_nonempty order.invoice_ids in
      compute_x_payment_status database order ≡ (
        if has_invoices && all is_complete ls
        then PaymentStatus.full
        else if has_invoices && any is_started ls
        then PaymentStatus.partially
        else PaymentStatus.unpaid)
  unfolding compute_x_payment_status
  compute_x_payment_status_lem =
      let flags =
        status_loop_lem (record { full = true; partial = false; has_invoice = false })
          order.order_line in
      ground (arith, flags)
