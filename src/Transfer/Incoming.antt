-- ===== src/Transfer/Incoming.antt =====
-- models/stock_picking.py: the check of an incoming picking, the incoming picking that is made from
-- an outgoing one, and the update of the request after a validation.
pub mod Destination
pub mod Mirror
use hai_compnay.Common.{
  ℕ, suc, ◌+◌, List, [], ◌∷◌, ◌++◌, map, Option, none, some, Bool, true, false, not, ◌&&◌, Result,
  ok, err, ◌>>=◌, ◌>>◌, if◌then◌else◌, ◌==◌, filtered, any, length, is_nonempty,
}
use hai_compnay.Common.Int.{ℤ, eqb_ℤ}
use hai_compnay.Transfer.Model.{
  State, TransferRequestType, MoveState, StockMove, Picking, RequestLine, Request, Env, Error,
  quantity_mismatch, no_single_destination, is_done, is_transit, is_internal,
}
use hai_compnay.Transfer.Outgoing.{Ids, get_picking_type}
use hai_compnay.Transfer.Available.{get_product_export_total_qty, validate_picking_available_qty}
use hai_compnay.Transfer.Status.{is_missing, check_and_update_state}

-- The moves whose done quantity is not the demand.
abbrev pub differs : StockMove → Bool
differs move = not (eqb_ℤ move.quantity move.product_uom_qty)

abbrev pub mismatch : StockMove → ℕ × ℤ × ℤ
mismatch move = (move.product_id, move.product_uom_qty, move.quantity)

pub check_quantity_with_transfer_request : Env → List Picking → Result Error (Unit {0})
check_quantity_with_transfer_request env [] = ok tt
check_quantity_with_transfer_request env (p ∷ ps) =
    let bad = map mismatch (filtered differs p.move_ids) in
    let rest = check_quantity_with_transfer_request env ps in
    if not (is_missing p.x_stock_transfer_request_id)
      && is_internal (env.usage p.location_dest_id)
      && is_nonempty bad
    then err (quantity_mismatch bad)
    else rest

-- `self.move_ids.x_transfer_request_line_id.location_dest_id`, each location once.
abbrev pub dest_of_line : Env → Option ℕ → List RequestLine → List ℕ
dest_of_line env none lines = []
dest_of_line env (some i) lines =
    map (λ line. env.lot_stock_id line.dest_warehouse_id) (filtered (λ line. line.id == i) lines)

abbrev pub add_new : List ℕ → List ℕ → List ℕ
add_new [] known = known
add_new (x ∷ xs) known = add_new xs (if any (◌==◌ x) known then known else known ++ x ∷ [])

abbrev pub dest_locations : Env → Request → List StockMove → List ℕ → List ℕ
dest_locations env r [] known = known
dest_locations env r (move ∷ moves) known =
    dest_locations env r moves
      (add_new (dest_of_line env move.x_transfer_request_line_id r.request_line_ids) known)

-- A field of a recordset is read of a single record.
abbrev pub single : List ℕ → Result Error ℕ
single (x ∷ []) = ok x
single _ = err no_single_destination

-- `_prepare_move_copy_values` and `copy`: the copies are numbered on from `next`.
pub copy_moves : ℕ → ℕ → Option ℕ → List StockMove → List StockMove
copy_moves next location_dest picking_type [] = []
copy_moves next location_dest picking_type (move ∷ moves) =
    record move {
      id = next;
      state = MoveState.draft;
      location_id = move.location_dest_id;
      location_dest_id = location_dest;
      product_uom_qty = move.quantity;
      picking_type_id = picking_type;
      move_dest_ids = [];
    }
    ∷ copy_moves (suc next) location_dest picking_type moves

abbrev pub id_of : StockMove → ℕ
id_of move = move.id

abbrev pub linked_to : List ℕ → StockMove → StockMove
linked_to new_ids move = record move { move_dest_ids = move.move_dest_ids ++ new_ids }

-- `self.move_ids.write({'move_dest_ids': write_vals})`: every copy is added to every move.
pub link_moves : List ℕ → List StockMove → List StockMove
link_moves new_ids = map (linked_to new_ids)

-- What `_create_picking_in` leaves: the new picking, the old one with its moves linked, and the next
-- identifiers. `confirm` is Odoo's `_action_confirm` on the new moves.
unfoldable pub create_picking_in :
    Env
    → (List StockMove → List StockMove)
    → Ids
    → Request
    → Picking
    → Result Error (Picking × Picking × Ids)
unfolding copy_moves link_moves
create_picking_in env confirm ids r p = do
  location_dest ← single (dest_locations env r p.move_ids [])
  let picking_type = get_picking_type env (env.warehouse_id location_dest)
  let copies = copy_moves ids.move location_dest picking_type p.move_ids
  ok (
    record {
      id = ids.picking;
      state = MoveState.draft;
      picking_type_id = picking_type;
      location_id = p.location_dest_id;
      location_dest_id = location_dest;
      move_ids = confirm copies;
      x_destination_warehouse_id = none;
      x_stock_transfer_request_id = p.x_stock_transfer_request_id;
      x_origin_out_picking_from_transfer_request_id = some p.id;
    },
    record p { move_ids = link_moves (map id_of copies) p.move_ids },
    record { picking = suc ids.picking; move = ids.move + length p.move_ids },
  )

abbrev pub is_internal_request : TransferRequestType → Bool
is_internal_request TransferRequestType.internal = true
is_internal_request TransferRequestType.inter = false

-- One round of `create_picking_in_for_internal_transfer`, for a picking of request `r`; `none` where
-- the round does nothing. The reservation of the new moves is Odoo's, and
-- their lots are Lots.
pub create_picking_in_for_internal_transfer :
    Env
    → (List StockMove → List StockMove)
    → Ids
    → Request
    → ℕ
    → Picking
    → Result Error (Option (Picking × Picking × Ids))
unfolding create_picking_in
create_picking_in_for_internal_transfer env confirm ids r source_warehouse p =
    if not (is_missing p.x_stock_transfer_request_id)
      && is_internal_request r.transfer_request_type
      && is_transit (env.usage p.location_dest_id)
    then (do
      validate_picking_available_qty env source_warehouse (get_product_export_total_qty p)
      made ← create_picking_in env confirm ids r p
      ok (some made))
    else ok none

abbrev pub is_done_state : State → Bool
is_done_state State.done = true
is_done_state _ = false

-- One round of `_check_and_update_transfer_request_state`, for a picking of request `r`.
unfoldable pub check_and_update_transfer_request_state : Env → Request → Picking → Request
check_and_update_transfer_request_state env r p =
    if not (is_missing p.x_stock_transfer_request_id)
      && not (is_done_state r.state)
      && (is_transit (env.usage p.location_dest_id) && is_done p.state)
    then check_and_update_state env r
    else if not (is_missing p.x_stock_transfer_request_id)
        && not (is_done_state r.state)
        && (is_internal (env.usage p.location_dest_id) && is_done p.state)
    then check_and_update_state env r
    else r
