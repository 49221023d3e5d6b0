-- ===== src/Stock/Tests/Pickings.antt =====
-- The theorem on dates of done pickings, and the check of their quantities, at small inputs.
use hai_compnay.Common.{ℕ, [], ◌∷◌, ◌≡◌, refl, Option, some, none, true, err, All₂}
use hai_compnay.Common.Int.{pos}
use hai_compnay.Stock.Picking.{
  Move, Picking, Vals, redundant, validate_redundant_export_import, write,
}
use hai_compnay.Stock.Picking.Written.{IsDated, write-IsDated}

abbrev odoo_write : Vals ℕ → Picking → Picking
odoo_write vals picking = go vals.date_done
  where
    go : Option (Option ℕ) → Picking
    go none = picking
    go (some date) = record picking { date_done = date }

abbrev over : Move
over = record { product_id = 3; product_uom_qty = pos 4; quantity = pos 5 }

abbrev exact : Move
exact = record { product_id = 3; product_uom_qty = pos 4; quantity = pos 4 }

abbrev done : Picking
done = record { id = 1; move_ids = exact ∷ []; date_done = some 8 }

abbrev open_ : Picking
open_ = record { id = 2; move_ids = exact ∷ over ∷ []; date_done = none }

refused : validate_redundant_export_import (done ∷ open_ ∷ []) ≡ err (redundant (over ∷ []))
unfolding validate_redundant_export_import
refused = refl

write-IsDated_example :
    All₂
      (IsDated 9)
      (done ∷ open_ ∷ [])
      (write odoo_write true (record { date_done = some (some 9); others = 0 }) (done ∷ open_ ∷ []))
write-IsDated_example =
    write-IsDated odoo_write (λ date others picking. refl) (λ others picking. refl) 9 0
      (done ∷ open_ ∷ [])
