-- ===== src/Transfer/Tests.antt =====
-- Runs of the transfer model on small data, and the theorems at inputs that meet their hypotheses.
mod Checks
mod Lives
mod Trade
use hai_compnay.Common.{
  ℕ, ◌+◌, ◌-◌, List, [], ◌∷◌, ◌++◌, Option, none, some, ◌≡◌, ◌≢◌, refl, ◌↔◌, ok, err, arith, All,
  All₂, Bool, true, false, if◌then◌else◌, ◌==◌, inl, inr, ◌⊎◌, map, filtered,
}
use hai_compnay.Common.Int.{ℤ, pos, negsuc, ◌+ℤ◌, ◌-ℤ◌, ◌≤ℤ◌, ◌<ℤ◌, total, sub_ℕ}
use hai_compnay.Common.Decimal.{Text, str, int, split}
use hai_compnay.Transfer.Model.{
  State, TransferRequestType, Usage, MoveState, StockMove, Picking, RequestLine, Request, Env,
  Error,
}
use hai_compnay.Transfer.Lines.{prepare_stock_move_vals}
use hai_compnay.Transfer.Status.{check_approve_state, check_source_company_and_warehouse}
use hai_compnay.Transfer.Outgoing.{
  Ids, action_am_approve, approve_loop, create_picking_incoming_outgoing, create_pickings,
  create_stock_picking_in_out, parse_key, create_picking_out, prepare_stock_move_values,
  get_picking_data_foreach_location, key_line,
}
use hai_compnay.Transfer.Outgoing.Approval.{IsApproved, action_am_approve-eq-ok}
use hai_compnay.Transfer.Outgoing.Success.{IsReady, action_am_approve-ok}

-- Warehouse w has location 100 + w; location 8 is the transit location.
abbrev pub env : Env
env = record {
  usage = λ l. if l == 8 then Usage.transit else Usage.internal;
  lot_stock_id = λ w. 100 + w;
  warehouse_id = λ l. l - 100;
  transit_location = some 8;
  internal_picking_type = λ w. some (50 + w);
  qty_available = λ w p. pos 10;
  is_tracked = λ p. false;
  many2one = int;
}

abbrev pub line : ℕ → ℕ → ℕ → ℕ → RequestLine
line i p w q = record {
  id = i;
  product_id = p;
  dest_warehouse_id = w;
  request_qty = pos q;
  export_qty = pos 0;
  receive_qty = pos 0;
  remaining_qty = pos q;
  stock_move_ids = [];
}

abbrev pub request : State → List RequestLine → List Picking → Request
request s ls ps = record {
  id = 1;
  name = "YC/1";
  expected_date = some 20250101;
  state = s;
  transfer_request_type = TransferRequestType.internal;
  source_company_id = none;
  source_warehouse_id = some 1;
  transfer_warehouse_id = 1;
  dest_warehouse_id = 2;
  reject_reason = none;
  request_line_ids = ls;
  picking_ids = ps;
}

abbrev pub lines : List RequestLine
lines = line 11 5 2 3 ∷ line 12 6 3 4 ∷ line 13 6 2 1 ∷ []

abbrev pub move : ℕ → ℕ → ℕ → ℕ → StockMove
move i p q l = record {
  id = i;
  product_id = p;
  state = MoveState.draft;
  location_id = 101;
  location_dest_id = 8;
  product_uom_qty = pos q;
  quantity = pos q;
  picking_type_id = some 51;
  move_dest_ids = [];
  x_transfer_request_line_id = some l;
}

abbrev pub picking : ℕ → ℕ → List StockMove → Picking
picking i w ms = record {
  id = i;
  state = MoveState.draft;
  picking_type_id = some 51;
  location_id = 101;
  location_dest_id = 8;
  move_ids = ms;
  x_destination_warehouse_id = some w;
  x_stock_transfer_request_id = some 1;
  x_origin_out_picking_from_transfer_request_id = none;
}

abbrev pub pending : List Request
pending = request State.manager_approved lines [] ∷ []

abbrev pub approved_one : Request
approved_one = request State.am_wh_approved lines (
    picking 70 2 (move 900 5 3 11 ∷ move 901 6 1 13 ∷ [])
    ∷ picking 71 3 (move 902 6 4 12 ∷ [])
    ∷ [])

abbrev pub approved : List Request
approved = approved_one ∷ []

abbrev pub ids : Ids
ids = record { picking = 70; move = 900 }

abbrev pub ids' : Ids
ids' = record { picking = 72; move = 903 }

pub approve_run : action_am_approve env ids pending ≡ ok (approved, ids')
unfolding action_am_approve check_approve_state check_source_company_and_warehouse approve_loop
    create_picking_incoming_outgoing create_pickings create_stock_picking_in_out parse_key
    create_picking_out prepare_stock_move_values get_picking_data_foreach_location key_line str
    prepare_stock_move_vals
approve_run = refl

-- The theorems at these inputs.
action_am_approve-eq-ok_example :
    All (λ r. r.state ≡ State.manager_approved) pending × All₂ (IsApproved env) pending approved
action_am_approve-eq-ok_example = action_am_approve-eq-ok env ids pending approve_run

ready : IsReady env (request State.manager_approved lines [])
ready = record { approved = refl; has_source = refl; picking_type = 51; found = refl }

action_am_approve-ok_example :
    (out : List Request × Ids) × (action_am_approve env ids pending ≡ ok out)
action_am_approve-ok_example = action_am_approve-ok env ids 8 pending refl (ready, tt)
