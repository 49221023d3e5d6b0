-- ===== src/Returns/Wizard.antt =====
-- The lines of the return wizards: a1_sale_return/wizard/sale_return_wizard.py and, word for word the
-- same loops, a1_purchase_return/wizard/purchase_return_wizard.py. `L` is the order line that a
-- wizard line stands for.
pub mod Accepted
pub mod Limit
use hai_compnay.Common.{
  ℕ, List, [], ◌∷◌, map, Bool, true, false, Result, ok, err, ◌>>=◌, ◌>>◌, raise_if, if◌then◌else◌,
  filtered, any, is_nonempty, not,
}
use hai_compnay.Common.Int.{ℤ, pos, ◌+ℤ◌, ltb_ℤ, leb_ℤ}

pub record ReturnLine (L : Type 0) : Type 0 where
  pub product_id : ℕ
  pub uom_id : ℕ
  pub done_qty : ℤ
  pub returned_qty : ℤ
  pub remaining_qty : ℤ
  pub return_qty : ℤ
  pub order_line : L
  pub is_selected : Bool

pub data Error : Type 0 where
  nothing_selected : Error
  exceeds_remaining : ℕ → Error
  not_positive : ℕ → Error
  no_quantity : Error
  mixed_types : Error
  not_in_origin : List ℕ → Error

module _ {L : Type 0} where
  abbrev pub selected : ReturnLine L → Bool
  selected l = l.is_selected

  unfoldable pub total_remaining_loop : ℤ → List (ReturnLine L) → ℤ
  total_remaining_loop total_qty [] = total_qty
  total_remaining_loop total_qty (l ∷ ls) =
      total_remaining_loop (if l.is_selected then total_qty +ℤ l.remaining_qty else total_qty) ls

  unfoldable pub compute_total_remaining_qty : List (ReturnLine L) → ℤ
  compute_total_remaining_qty = total_remaining_loop (pos 0)

  abbrev pub compute_has_selected_lines : List (ReturnLine L) → Bool
  compute_has_selected_lines = any selected

  abbrev pub mark : Bool → ReturnLine L → ReturnLine L
  mark b l = record l { is_selected = b }

  unfoldable pub onchange_selected_all : Bool → List (ReturnLine L) → List (ReturnLine L)
  onchange_selected_all b = map (mark b)

  -- The loop of `button_create_return` over the selected lines; `prepare` makes the values of the
  -- new order line.
  unfoldable pub create_lines :
      {V : Type 0} → (ReturnLine L → V) → List (ReturnLine L) → Result Error (List V)
  create_lines prepare [] = ok []
  create_lines prepare (l ∷ ls) =
      let rest = create_lines prepare ls in
      if ltb_ℤ l.remaining_qty l.return_qty
      then err (exceeds_remaining l.product_id)
      else if leb_ℤ l.return_qty (pos 0)
      then err (not_positive l.product_id)
      else if ltb_ℤ (pos 0) l.return_qty
      then (rest >>= λ vals. ok (prepare l ∷ vals))
      else rest

  -- `button_create_return` up to the values of the new order lines.
  unfoldable pub return_lines :
      {V : Type 0} → (ReturnLine L → V) → List (ReturnLine L) → Result Error (List V)
  unfolding create_lines
  return_lines prepare ls = do
    raise_if (not (is_nonempty (filtered selected ls))) nothing_selected
    vals ← create_lines prepare (filtered selected ls)
    raise_if (not (is_nonempty vals)) no_quantity
    ok vals
