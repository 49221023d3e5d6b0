-- ===== src/Sale/Payment.antt =====
-- The payment status of a sale order: `_compute_x_payment_status` of a1_sale/models/sale_order.py.
pub mod Status
use hai_compnay.Common.{
  ℕ, List, [], ◌∷◌, Bool, true, false, if◌then◌else◌, filtered, any, is_nonempty, not, ◌&&◌, ◌||◌,
  ◌==◌,
}
use hai_compnay.Common.Int.{ℤ, pos, ltb_ℤ, eqb_ℤ, sum_of}

pub data PaymentStatus : Type 0 where
  unpaid partially full : PaymentStatus

pub record OrderLine : Type 0 where
  pub id : ℕ
  pub product_uom_qty : ℤ

-- A journal item in the database, with whether its move is posted.
pub record InvoiceLine : Type 0 where
  pub sale_line_ids : List ℕ
  pub move_id : ℕ
  pub is_posted : Bool
  pub quantity : ℤ

pub record Order : Type 0 where
  pub invoice_ids : List ℕ
  pub order_line : List OrderLine

abbrev pub quantity_of : InvoiceLine → ℤ
quantity_of l = l.quantity

-- The domain of the search for the invoice lines of a sale line.
abbrev pub is_invoice_line : Order → OrderLine → InvoiceLine → Bool
is_invoice_line order sale_line l =
    any (λ i. i == sale_line.id) l.sale_line_ids
    && any (λ i. i == l.move_id) order.invoice_ids
    && l.is_posted

unfoldable pub invoiced_qty : List InvoiceLine → Order → OrderLine → ℤ
invoiced_qty database order sale_line =
    sum_of quantity_of (filtered (is_invoice_line order sale_line) database)

-- The flags `full`, `partial` and `has_invoice`.
pub record Flags : Type 0 where
  pub full : Bool
  pub partial : Bool
  pub has_invoice : Bool

-- One round of the loop over the lines, on the ordered and the invoiced quantity.
unfoldable pub status_step : Flags → ℤ → ℤ → Flags
status_step f order_qty invoiced =
    let has_invoice = if ltb_ℤ (pos 0) invoiced then true else f.has_invoice in
    if eqb_ℤ invoiced order_qty
    then record { full = f.full; partial = f.partial; has_invoice = has_invoice }
    else if ltb_ℤ (pos 0) invoiced
    then record { full = false; partial = true; has_invoice = has_invoice }
    else record { full = false; partial = f.partial; has_invoice = has_invoice }

unfoldable pub status_loop : List InvoiceLine → Order → Flags → List OrderLine → Flags
status_loop database order f [] = f
status_loop database order f (l ∷ ls) =
    status_loop database order (status_step f l.product_uom_qty (invoiced_qty database order l)) ls

unfoldable pub compute_x_payment_status : List InvoiceLine → Order → PaymentStatus
compute_x_payment_status database order =
    let f =
      status_loop database order (record { full = true; partial = false; has_invoice = false })
        order.order_line in
    if not (is_nonempty order.invoice_ids)
    then PaymentStatus.unpaid
    else if f.full
    then PaymentStatus.full
    else if f.partial || f.has_invoice
    then PaymentStatus.partially
    else PaymentStatus.unpaid
