-- ===== src/Transfer/Available.antt =====
-- The sums by product and the checks against the stock, of models/stock_transfer_request.py (for
-- what a request asks) and of models/stock_picking.py (for what a picking moves).
pub mod Enough
use hai_compnay.Common.{
  ℕ, List, [], ◌∷◌, map, Option, none, some, Bool, true, false, Result, ok, err, raise_if, filtered,
  is_nonempty, nat_key,
}
use hai_compnay.Common.Int.{ℤ, pos, ltb_ℤ}
use hai_compnay.Common.Dict.{Dict}
use hai_compnay.Common.Dict.Group.{accumulate}
use hai_compnay.Transfer.Model.{RequestLine, StockMove, Request, Picking, Env, Error, out_of_stock}

abbrev pub product_of_line : RequestLine → ℕ
product_of_line line = line.product_id

abbrev pub request_qty_of : RequestLine → ℤ
request_qty_of line = line.request_qty

unfoldable pub get_product_request_total_qty : Request → Dict ℕ ℤ
get_product_request_total_qty r = accumulate product_of_line request_qty_of [] r.request_line_ids

abbrev pub product_of_move : StockMove → ℕ
product_of_move move = move.product_id

abbrev pub quantity_of_move : StockMove → ℤ
quantity_of_move move = move.quantity

unfoldable pub get_product_export_total_qty : Picking → Dict ℕ ℤ
get_product_export_total_qty p = accumulate product_of_move quantity_of_move [] p.move_ids

-- `StockTransferRequest._validate_available_qty`, at the source warehouse.
abbrev pub is_short : Env → ℕ → ℕ × ℤ → Bool
is_short env warehouse (product, qty) = ltb_ℤ (env.qty_available warehouse product) qty

abbrev pub product_of {ℓ} : {V : Type ℓ} → ℕ × V → ℕ
product_of (product, _) = product

unfoldable pub validate_request_available_qty : Env → ℕ → Dict ℕ ℤ → Result Error (Unit {0})
validate_request_available_qty env warehouse quantities =
    let bad = map product_of (filtered (is_short env warehouse) quantities) in
    raise_if (is_nonempty bad) (out_of_stock bad)

-- `StockPicking._validate_available_qty`: of a tracked product only a negative stock is refused.
abbrev pub is_short_or_negative : Env → ℕ → ℕ × ℤ → Bool
is_short_or_negative env warehouse (product, qty) = elim (env.is_tracked product) [
  | true ↦ ltb_ℤ (env.qty_available warehouse product) (pos 0)
  | false ↦ ltb_ℤ (env.qty_available warehouse product) qty
]

unfoldable pub validate_picking_available_qty : Env → ℕ → Dict ℕ ℤ → Result Error (Unit {0})
validate_picking_available_qty env warehouse quantities =
    let bad = map product_of (filtered (is_short_or_negative env warehouse) quantities) in
    raise_if (is_nonempty bad) (out_of_stock bad)
