-- ===== src/Stock/Picking.antt =====
-- Pickings: `validate_redundant_export_import` and `write` of a1_stock/models/stock_picking.py.
pub mod Written
use hai_compnay.Common.{
  ℕ, List, [], ◌∷◌, Option, none, some, Bool, true, false, ◌&&◌, Result, ok, err, ◌>>◌, raise_if,
  if◌then◌else◌, filtered, is_nonempty, map,
}
use hai_compnay.Common.Int.{ℤ, pos, ◌+ℤ◌, ltb_ℤ}

pub record Move : Type 0 where
  pub product_id : ℕ
  pub product_uom_qty : ℤ
  pub quantity : ℤ

pub record Picking : Type 0 where
  pub id : ℕ
  pub move_ids : List Move
  pub date_done : Option ℕ

-- The `UserError`, with the lines that its text names.
pub data PickingError : Type 0 where
  redundant : List Move → PickingError

abbrev pub is_redundant : Move → Bool
is_redundant line = ltb_ℤ line.product_uom_qty line.quantity

unfoldable pub validate_redundant_export_import : List Picking → Result PickingError (Unit {0})
validate_redundant_export_import [] = ok tt
validate_redundant_export_import (rec_ ∷ recs) =
    let lines = filtered is_redundant rec_.move_ids in
    let rest = validate_redundant_export_import recs in
    raise_if (is_nonempty lines) (redundant lines) >> rest

-- `sum(rec.move_ids.mapped('product_uom_qty'))`
unfoldable pub compute_total_quantity : List Move → ℤ
compute_total_quantity [] = pos 0
compute_total_quantity (line ∷ lines) = line.product_uom_qty +ℤ compute_total_quantity lines

-- The values of a call of `write`: `none` is a missing key, `some none` a date that is cleared.
-- `O` is what the other keys hold.
pub record Vals (O : Type 0) : Type 0 where
  pub date_done : Option (Option ℕ)
  pub others : O

module _ {O : Type 0} where
  abbrev pub names_date : Vals O → Bool
  names_date vals = go vals.date_done
    where
      go : Option (Option ℕ) → Bool
      go (some (some date)) = true
      go _ = false

  abbrev pub without_date : Vals O → Vals O
  without_date vals = record vals { date_done = none }

  -- `cp_vals`
  abbrev pub vals_for : Vals O → Picking → Vals O
  vals_for vals picking = go picking.date_done
    where
      go : Option ℕ → Vals O
      go none = vals
      go (some date) = without_date vals

  -- `write`, where `super` is Odoo's, which writes each picking on its own; `skip` is the key `x_skip_write_date_done` of
  -- the context.
  unfoldable pub write : (Vals O → Picking → Picking) → Bool → Vals O → List Picking → List Picking
  write super skip vals records =
      if names_date vals && skip
      then map (λ picking. super (vals_for vals picking) picking) records
      else map (super vals) records
