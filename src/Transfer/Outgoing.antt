-- ===== src/Transfer/Outgoing.antt =====
-- models/stock_transfer_request.py: the approval, which makes one outgoing picking, bound for the
-- transit location, for each pair of locations and destination warehouse among the lines.
pub mod Groups
pub mod Pickings
pub mod Approval
pub mod Success
use hai_compnay.Common.{
  ℕ, suc, ◌+◌, List, [], ◌∷◌, ◌++◌, Option, none, some, Result, ok, err, ◌>>=◌, ◌>>◌, length,
  codes_key,
}
use hai_compnay.Common.Decimal.{Text, str, int, split}
use hai_compnay.Common.Dict.{Dict}
use hai_compnay.Common.Dict.Group.{append_by}
use hai_compnay.Transfer.Model.{
  State, MoveState, StockMove, Picking, RequestLine, Request, Env, Error, no_transit_location,
  no_picking_type, bad_key,
}
use hai_compnay.Transfer.Lines.{MoveVals, prepare_stock_move_vals}
use hai_compnay.Transfer.Status.{check_approve_state, check_source_company_and_warehouse}

-- f'{line.location_id.id}-{line.location_dest_id.id}-{line.dest_warehouse_id.id}'
unfoldable pub key_line : Env → Request → RequestLine → Text
key_line env r line =
    str (env.lot_stock_id r.transfer_warehouse_id)
    ++ b'-' ∷ (str (env.lot_stock_id line.dest_warehouse_id) ++ b'-' ∷ str line.dest_warehouse_id)

unfoldable pub get_picking_data_foreach_location : Env → Request → Dict Text (List MoveVals)
get_picking_data_foreach_location env r =
    append_by (key_line env r) prepare_stock_move_vals [] r.request_line_ids

abbrev pub get_picking_type : Env → ℕ → Option ℕ
get_picking_type env warehouse = env.internal_picking_type warehouse

-- The identifiers that the database gives to the next picking and the next move.
pub record Ids : Type 0 where
  pub picking : ℕ
  pub move : ℕ

-- The moves that are created from the values of `_prepare_stock_move_values`.
unfoldable pub prepare_stock_move_values : ℕ → ℕ → ℕ → ℕ → List MoveVals → List StockMove
prepare_stock_move_values next picking_type location location_dest [] = []
prepare_stock_move_values next picking_type location location_dest (val ∷ vals) =
    record {
      id = next;
      product_id = val.product_id;
      state = val.state;
      location_id = location;
      location_dest_id = location_dest;
      product_uom_qty = val.product_uom_qty;
      quantity = val.quantity;
      picking_type_id = some picking_type;
      move_dest_ids = [];
      x_transfer_request_line_id = some val.x_transfer_request_line_id;
    }
    ∷ prepare_stock_move_values (suc next) picking_type location location_dest vals

-- `_prepare_picking` and the creation of the record, with its moves.
unfoldable pub create_picking_out :
    Env → Ids → Request → ℕ → ℕ → ℕ → Text → List MoveVals → Picking × Ids
create_picking_out env ids r picking_type location location_transit dest_warehouse vals = (
  record {
    id = ids.picking;
    state = MoveState.draft;
    picking_type_id = some picking_type;
    location_id = location;
    location_dest_id = location_transit;
    move_ids = prepare_stock_move_values ids.move picking_type location location_transit vals;
    x_destination_warehouse_id = env.many2one dest_warehouse;
    x_stock_transfer_request_id = some r.id;
    x_origin_out_picking_from_transfer_request_id = none;
  },
  record { picking = suc ids.picking; move = ids.move + length vals },
)

-- The three parts of a key, the first read as a number. A key with other parts raises.
unfoldable pub parse_key : List Text → Result Error (ℕ × Text)
parse_key (location ∷ location_dest ∷ dest_warehouse ∷ []) = elim (int location) [
  | none ↦ err bad_key
  | some n ↦ ok (n, dest_warehouse)
]
parse_key _ = err bad_key

unfoldable pub create_stock_picking_in_out :
    Env → Ids → Request → ℕ → Text → List MoveVals → Result Error (Picking × Ids)
create_stock_picking_in_out env ids r transit key vals =
    parse_key (split b'-' key) >>= λ (location, dest_warehouse).
    elim (get_picking_type env (env.warehouse_id location)) [
      | none ↦ err (no_picking_type (env.warehouse_id location))
      | some picking_type ↦
          ok (create_picking_out env ids r picking_type location transit dest_warehouse vals)
    ]

-- The loop over the groups.
unfoldable pub create_pickings :
    Env → Ids → Request → ℕ → Dict Text (List MoveVals) → Result Error (List Picking × Ids)
create_pickings env ids r transit [] = ok ([], ids)
create_pickings env ids r transit ((key, vals) ∷ groups) =
    create_stock_picking_in_out env ids r transit key vals >>= λ (picking, ids').
    create_pickings env ids' r transit groups >>= λ (pickings, ids'').
    ok (picking ∷ pickings, ids'')

unfoldable pub create_picking_incoming_outgoing :
    Env → Ids → Request → Result Error (List Picking × Ids)
create_picking_incoming_outgoing env ids r = elim env.transit_location [
  | none ↦ err no_transit_location
  | some transit ↦ create_pickings env ids r transit (get_picking_data_foreach_location env r)
]

-- The loop of `action_am_approve`: the pickings of each request, then its state.
unfoldable pub approve_loop : Env → Ids → List Request → Result Error (List Request × Ids)
approve_loop env ids [] = ok ([], ids)
approve_loop env ids (r ∷ rs) = create_picking_incoming_outgoing env ids r >>= λ (pickings, ids').
    approve_loop env ids' rs >>= λ (rs', ids''). ok (
      record r { state = State.am_wh_approved; picking_ids = r.picking_ids ++ pickings } ∷ rs',
      ids'',
    )

unfoldable pub action_am_approve : Env → Ids → List Request → Result Error (List Request × Ids)
action_am_approve env ids rs = do
  check_approve_state rs
  check_source_company_and_warehouse rs
  approve_loop env ids rs
