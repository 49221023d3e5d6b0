-- ===== src/Transfer/Lines.antt =====
-- models/stock_transfer_request_line.py: the quantities of a line, their constraint, and the values
-- of the move that a line asks for.
pub mod Quantities
use hai_compnay.Common.{
  ℕ, List, [], ◌∷◌, Option, none, some, Bool, true, false, Result, ok, err, if◌then◌else◌,
}
use hai_compnay.Common.Int.{ℤ, pos, ◌+ℤ◌, ◌-ℤ◌, leb_ℤ}
use hai_compnay.Transfer.Model.{
  RequestLine, StockMove, MoveState, Env, Error, nonpositive_qty, is_done, is_transit,
}

-- The loop of `_compute_quantity`, over the moves that are left.
pub quantity_loop : Env → ℤ → ℤ → List StockMove → ℤ × ℤ
quantity_loop env export_qty receive_qty [] = (export_qty, receive_qty)
quantity_loop env export_qty receive_qty (move ∷ moves) =
    let skipped = quantity_loop env export_qty receive_qty moves in
    let exported = quantity_loop env (export_qty +ℤ move.quantity) receive_qty moves in
    let received = quantity_loop env export_qty (receive_qty +ℤ move.quantity) moves in
    if is_done move.state
    then (if is_transit (env.usage move.location_dest_id) then exported else received)
    else skipped

pub compute_quantity : Env → RequestLine → RequestLine
unfolding quantity_loop
compute_quantity env line =
    let (export_qty, receive_qty) = quantity_loop env (pos 0) (pos 0) line.stock_move_ids in
    record line { export_qty = export_qty; receive_qty = receive_qty }

pub compute_quantity_remaining : RequestLine → RequestLine
compute_quantity_remaining line = record line {
  remaining_qty = line.request_qty -ℤ line.receive_qty;
}

-- Both computed fields, in the order of their dependencies.
pub recompute : Env → RequestLine → RequestLine
unfolding compute_quantity compute_quantity_remaining
recompute env line = compute_quantity_remaining (compute_quantity env line)

-- `for line in self`: the first line with a bad quantity raises.
pub constrains_request_qty : List RequestLine → Result Error (Unit {0})
constrains_request_qty [] = ok tt
constrains_request_qty (line ∷ lines) =
    let rest = constrains_request_qty lines in
    if leb_ℤ line.request_qty (pos 0) then err nonpositive_qty else rest

-- The values for a move, without the fields that are `False`; `location_id` and the rest of those
-- are filled in when the picking is made.
pub record MoveVals : Type 0 where
  pub product_id : ℕ
  pub state : MoveState
  pub x_transfer_request_line_id : ℕ
  pub product_uom_qty : ℤ
  pub quantity : ℤ

unfoldable pub prepare_stock_move_vals : RequestLine → MoveVals
prepare_stock_move_vals line = record {
  product_id = line.product_id;
  state = MoveState.draft;
  x_transfer_request_line_id = line.id;
  product_uom_qty = line.request_qty;
  quantity = line.request_qty;
}
