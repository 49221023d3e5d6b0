-- ===== src/Transfer/Tests/Checks.antt =====
-- The theorems on lines, quantities and checks, at small inputs.
use hai_compnay.Common.{
  ℕ, [], ◌∷◌, none, some, ◌≡◌, ◌≢◌, ◌↔◌, ok, All, Bool, true, false, ◌⊎◌, codes_key, nat_key,
}
use hai_compnay.Common.Int.{pos, ◌≤ℤ◌, total}
use hai_compnay.Common.Dict.Group.{having}
use hai_compnay.Transfer.Model.{State, MoveState, StockMove, Picking, RequestLine, Request}
use hai_compnay.Transfer.Status.{check_and_update_state, validate_request_line_ids_items}
use hai_compnay.Transfer.Status.Progress.{IsReceived, IsSent, check_and_update_state_iff}
use hai_compnay.Transfer.Status.Duplicates.{IsDistinct, validate_request_line_ids_items_iff}
use hai_compnay.Transfer.Available.{
  product_of_move, quantity_of_move, get_product_export_total_qty, validate_picking_available_qty,
}
use hai_compnay.Transfer.Available.Enough.{validate_picking_available_qty_iff}
use hai_compnay.Transfer.Tests.{env, line, request, lines, move, picking, pending}

abbrev moved_line : RequestLine
moved_line = record (line 11 5 2 3) {
  stock_move_ids =
      record (move 900 5 3 11) { state = MoveState.done }
      ∷ record (move 910 5 2 11) { state = MoveState.done; location_dest_id = 102 }
      ∷ move 911 5 9 11
      ∷ [];
}

abbrev sent : Request
sent = request State.am_wh_approved lines (record (picking 70 2 []) { state = MoveState.done } ∷ [])

check_and_update_state_iff_example :
    let s = (check_and_update_state env sent).state in
    ((s ≡ State.done) ↔ (
      IsReceived env sent
      ⊎ ((sent.state ≡ State.done) × ¬ IsReceived env sent × ¬ IsSent env sent)))
    × ((s ≡ State.in_transit)
        ↔ (¬ IsReceived env sent × (IsSent env sent ⊎ (sent.state ≡ State.in_transit))))
check_and_update_state_iff_example = check_and_update_state_iff env sent

validate_request_line_ids_items_iff_example :
    (validate_request_line_ids_items pending ≡ ok tt)
    ↔ All (λ r. IsDistinct r.request_line_ids) pending
validate_request_line_ids_items_iff_example = validate_request_line_ids_items_iff pending

abbrev asking : Request
asking = request State.draft lines []

abbrev out : Picking
out = picking 70 2 (move 900 5 3 11 ∷ move 901 6 1 13 ∷ [])

validate_picking_available_qty_iff_example :
    (validate_picking_available_qty env 1 (get_product_export_total_qty out) ≡ ok tt) ↔ (
      (product : ℕ)
      → having product_of_move product out.move_ids ≢ []
      → (◌≡◌ {A = Bool} false true → pos 0 ≤ℤ pos 10)
        × (◌≡◌ {A = Bool} false false
            → total quantity_of_move (having product_of_move product out.move_ids) ≤ℤ pos 10))
validate_picking_available_qty_iff_example = validate_picking_available_qty_iff env 1 out

-- The picking that comes in, for a request whose two lines of that picking go to warehouse 2.
abbrev copy : ℕ → ℕ → ℕ → ℕ → StockMove
copy i p q l = record (move i p q l) {
  location_id = 8;
  location_dest_id = 102;
  picking_type_id = some 52;
}

abbrev incoming : Picking
incoming = record {
  id = 80;
  state = MoveState.draft;
  picking_type_id = some 52;
  location_id = 8;
  location_dest_id = 102;
  move_ids = copy 950 5 3 11 ∷ copy 951 6 1 13 ∷ [];
  x_destination_warehouse_id = none;
  x_stock_transfer_request_id = some 1;
  x_origin_out_picking_from_transfer_request_id = some 70;
}

abbrev linked : ℕ → ℕ → ℕ → ℕ → StockMove
linked i p q l = record (move i p q l) { move_dest_ids = 950 ∷ 951 ∷ [] }

abbrev out' : Picking
out' = record out { move_ids = linked 900 5 3 11 ∷ linked 901 6 1 13 ∷ [] }
