-- ===== src/Sale/Tests.antt =====
-- The theorems on sale orders at small inputs.
use hai_compnay.Common.{
  refl, ok, ◌↔◌, ◌<◌, List, [], ◌∷◌, ◌≡◌, arith, true, false, if◌then◌else◌, any, all, is_nonempty,
  ◌&&◌,
}
use hai_compnay.Common.Int.{pos}
use hai_compnay.Sale.Words.{
  Word, unit, tram, nghin, trieu, convert, convert_loop, add_part, convert_part,
}
use hai_compnay.Sale.Words.Range.{convert_iff}
use hai_compnay.Sale.Words.Reading.{read}
use hai_compnay.Sale.Words.RoundTrip.{convert-read}
use hai_compnay.Sale.Payment.{PaymentStatus, InvoiceLine, Order, compute_x_payment_status}
use hai_compnay.Sale.Payment.Status.{is_complete, is_started, compute_x_payment_status_lem}

-- Two lines; the first is invoiced in full, the second in part.
abbrev order : Order
order = record {
  invoice_ids = 30 ∷ 31 ∷ [];
  order_line =
      record { id = 1; product_uom_qty = pos 5 } ∷ record { id = 2; product_uom_qty = pos 4 } ∷ [];
}

abbrev database : List InvoiceLine
database =
    record { sale_line_ids = 1 ∷ []; move_id = 30; is_posted = true; quantity = pos 2 }
    ∷ record { sale_line_ids = 1 ∷ []; move_id = 31; is_posted = true; quantity = pos 3 }
    ∷ record { sale_line_ids = 2 ∷ []; move_id = 31; is_posted = true; quantity = pos 1 }
    ∷ record { sale_line_ids = 2 ∷ []; move_id = 30; is_posted = false; quantity = pos 3 }
    ∷ []

compute_x_payment_status_lem_example :
    let ls = order.order_line in
    let has_invoices = is_nonempty order.invoice_ids in
    compute_x_payment_status database order ≡ (
      if has_invoices && all (is_complete database order) ls
      then PaymentStatus.full
      else if has_invoices && any (is_started database order) ls
      then PaymentStatus.partially
      else PaymentStatus.unpaid)
compute_x_payment_status_lem_example = compute_x_payment_status_lem database order

convert_iff_example :
    ((words : List Word) × (convert 1205000 ≡ ok words)) ↔ (1205000 < 1000000000000)
convert_iff_example = convert_iff 1205000

-- một triệu hai trăm năm nghìn
in_words : convert 1205000 ≡ ok (unit 1 ∷ trieu ∷ unit 2 ∷ tram ∷ unit 5 ∷ nghin ∷ [])
unfolding convert convert_loop add_part convert_part
in_words = refl

convert-read_example : (words : List Word) × (convert 1205000 ≡ ok words) × (read words ≡ 1205000)
convert-read_example = convert-read 1205000 (omega arith)
