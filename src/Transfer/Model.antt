-- ===== src/Transfer/Model.antt =====
-- The records of a1_stock_transfer_request: models/stock_transfer_request.py (the request and its
-- states), models/stock_transfer_request_line.py (its lines), models/stock_picking.py and
-- models/stock_move.py (the fields added to Odoo's pickings and moves).
use Prim.Native.String.{String}
use hai_compnay.Common.{ℕ, List, Option, Bool, true, false}
use hai_compnay.Common.Int.{ℤ}
use hai_compnay.Common.Decimal.{Text}

pub data State : Type 0 where
  draft posted manager_approved am_wh_approved in_transit done reject cancel : State

-- The selection has `internal` alone; the code also tests for `inter`.
pub data TransferRequestType : Type 0 where
  internal inter : TransferRequestType

-- The usages of a location that the code names.
pub data Usage : Type 0 where
  transit internal elsewhere : Usage

-- The states of Odoo's moves and pickings that the code names.
pub data MoveState : Type 0 where
  draft done pending : MoveState

pub record StockMove : Type 0 where
  pub id : ℕ
  pub product_id : ℕ
  pub state : MoveState
  pub location_id : ℕ
  pub location_dest_id : ℕ
  pub product_uom_qty : ℤ
  pub quantity : ℤ
  pub picking_type_id : Option ℕ
  pub move_dest_ids : List ℕ
  pub x_transfer_request_line_id : Option ℕ

pub record Picking : Type 0 where
  pub id : ℕ
  pub state : MoveState
  pub picking_type_id : Option ℕ
  pub location_id : ℕ
  pub location_dest_id : ℕ
  pub move_ids : List StockMove
  pub x_destination_warehouse_id : Option ℕ
  pub x_stock_transfer_request_id : Option ℕ
  pub x_origin_out_picking_from_transfer_request_id : Option ℕ

pub record RequestLine : Type 0 where
  pub id : ℕ
  pub product_id : ℕ
  pub dest_warehouse_id : ℕ
  pub request_qty : ℤ
  pub export_qty : ℤ
  pub receive_qty : ℤ
  pub remaining_qty : ℤ
  pub stock_move_ids : List StockMove

pub record Request : Type 0 where
  pub id : ℕ
  pub name : String
  pub expected_date : Option ℕ
  pub state : State
  pub transfer_request_type : TransferRequestType
  pub source_company_id : Option ℕ
  pub source_warehouse_id : Option ℕ
  pub transfer_warehouse_id : ℕ
  pub dest_warehouse_id : ℕ
  pub reject_reason : Option String
  pub request_line_ids : List RequestLine
  pub picking_ids : List Picking

-- What the code reads of Odoo: a warehouse's stock location, a location's usage and warehouse, the
-- searches for a transit location and for a warehouse's internal picking type (each with `limit=1`),
-- the quantity at hand of a product in a warehouse, whether a product is tracked by lots, and the
-- record that a text assigned to a many-to-one field stands for.
pub record Env : Type 0 where
  pub usage : ℕ → Usage
  pub lot_stock_id : ℕ → ℕ
  pub warehouse_id : ℕ → ℕ
  pub transit_location : Option ℕ
  pub internal_picking_type : ℕ → Option ℕ
  pub qty_available : ℕ → ℕ → ℤ
  pub is_tracked : ℕ → Bool
  pub many2one : Text → Option ℕ

-- The `ValidationError`s and `UserError`s, by what their messages list.
pub data Error : Type 0 where
  nonpositive_qty : Error
  duplicated_items : List (ℕ × ℕ) → Error
  not_manager_approved : List String → Error
  missing_source : List String → Error
  not_deletable : Error
  no_transit_location : Error
  no_picking_type : ℕ → Error
  bad_key : Error
  out_of_stock : List ℕ → Error
  no_single_destination : Error
  quantity_mismatch : List (ℕ × ℤ × ℤ) → Error
  no_price : List ℕ → Error
  attribute_error : Error

abbrev pub is_done : MoveState → Bool
is_done MoveState.done = true
is_done _ = false

abbrev pub is_transit : Usage → Bool
is_transit Usage.transit = true
is_transit _ = false

abbrev pub is_internal : Usage → Bool
is_internal Usage.internal = true
is_internal _ = false
