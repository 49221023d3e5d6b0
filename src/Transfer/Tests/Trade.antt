-- ===== src/Transfer/Tests/Trade.antt =====
-- The theorems on lots and on purchase orders between companies, at small inputs.
use hai_compnay.Common.{
  ℕ, arith, List, [], ◌∷◌, none, some, ◌≡◌, ◌≢◌, refl, ok, err, All₂, true, false, ◌⊎◌, nat_key,
}
use hai_compnay.Common.Int.{pos, ◌+ℤ◌, ◌≤ℤ◌}
use hai_compnay.Common.Dict.{lookup, IsDict}
use hai_compnay.Common.Dict.Group.{having}
use hai_compnay.Transfer.Model.{
  State, TransferRequestType, Usage, Request, RequestLine, Env, no_price,
}
use hai_compnay.Transfer.Lots.{
  MoveLine, Tracking, TrackedMove, current_move_line_map, lots_loop, copy_lots,
}
use hai_compnay.Transfer.Lots.Paired.{paired, copy_lots-paired}
use hai_compnay.Transfer.Available.{
  product_of_line, get_product_request_total_qty, validate_request_available_qty,
}
use hai_compnay.Transfer.Available.Enough.{asked_for}
use hai_compnay.Transfer.Purchase.{
  OrderLine, Market, PurchaseVals, order_lines_loop, prepare_order_lines, seller_line, order_line,
  prepare_purchase_order_line, prepare_purchase_order_values, create_purchase_order_inter_company,
}
use hai_compnay.Transfer.Purchase.Priced.{
  IsPriced, bought_of, unpriced, prepare_order_lines_lem, create_purchase_order_inter_company_lem,
}
use hai_compnay.Common.{◌↔◌, ◌&&◌, All}
use hai_compnay.Common.Decimal.{Text}
use hai_compnay.Transfer.Import.{Context, validate_required_field, check_lines}
use hai_compnay.Transfer.Import.Required.{IsComplete, validate_required_field_iff}

abbrev line : ℕ → ℕ → MoveLine
line id lot = record { id = id; lot_id = some lot }

abbrev empty_line : ℕ → MoveLine
empty_line id = record { id = id; lot_id = none }

abbrev sent : List TrackedMove
sent =
    record {
      product_id = 5;
      has_tracking = some Tracking.lot;
      move_line_ids = line 1 91 ∷ line 2 92 ∷ [];
    }
    ∷ record {
      product_id = 6;
      has_tracking = some Tracking.untracked;
      move_line_ids = line 3 93 ∷ [];
    }
    ∷ []

abbrev received : List TrackedMove
received =
    record {
      product_id = 5;
      has_tracking = some Tracking.lot;
      move_line_ids = empty_line 11 ∷ empty_line 12 ∷ [];
    }
    ∷ record {
      product_id = 6;
      has_tracking = some Tracking.untracked;
      move_line_ids = empty_line 13 ∷ [];
    }
    ∷ []

-- Lines of products that are not tracked are given what the old line has too.
copied : copy_lots true sent received ≡ (11, some 91) ∷ (12, some 92) ∷ (13, some 93) ∷ []
unfolding copy_lots lots_loop current_move_line_map
copied = refl

-- Two moves of one product take their lots to the lines of the last copy alone.
copied_last :
    copy_lots true
      (record { product_id = 5; has_tracking = some Tracking.lot; move_line_ids = line 1 91 ∷ [] }
        ∷ record {
          product_id = 5;
          has_tracking = some Tracking.lot;
          move_line_ids = line 2 92 ∷ [];
        }
        ∷ [])
      (record {
        product_id = 5;
        has_tracking = some Tracking.lot;
        move_line_ids = empty_line 11 ∷ [];
      }
        ∷ record {
          product_id = 5;
          has_tracking = some Tracking.lot;
          move_line_ids = empty_line 12 ∷ [];
        }
        ∷ [])
    ≡ (12, some 91) ∷ []
unfolding copy_lots lots_loop current_move_line_map
copied_last = refl

copy_lots-paired_example : copy_lots true sent received ≡ paired sent received
copy_lots-paired_example =
    copy_lots-paired sent received ((refl, refl, (tt, (tt, tt))), ((refl, refl, (tt, tt)), tt))
      ((λ set_. ((λ other e. omega arith), tt)), ((λ set_. tt), tt))

abbrev market : Market
market = record {
  request_date = some 12;
  select_seller = λ product qty. some (pos 100);
  get_product_price = λ product qty. some (pos 110);
  supplier_taxes_id = λ product. [];
  included_tax_amounts = λ product. pos 10 ∷ [];
  uom_id = λ product. 1;
  is_household_company = false;
  source_partner = 3;
  incoming_picking_type = λ location. some 2;
}

abbrev env : Env
env = record {
  usage = λ location. Usage.internal;
  lot_stock_id = λ warehouse. warehouse;
  warehouse_id = λ location. location;
  transit_location = some 7;
  internal_picking_type = λ warehouse. some 1;
  qty_available = λ warehouse product. pos 9;
  is_tracked = λ product. false;
  many2one = λ text. none;
}

abbrev asks : ℕ → ℕ → RequestLine
asks id qty = record {
  id = id;
  product_id = 5;
  dest_warehouse_id = id;
  request_qty = pos qty;
  export_qty = pos 0;
  receive_qty = pos 0;
  remaining_qty = pos 0;
  stock_move_ids = [];
}

abbrev request : Request
request = record {
  id = 4;
  name = "R4";
  expected_date = some 20;
  state = State.draft;
  transfer_request_type = TransferRequestType.inter;
  source_company_id = some 2;
  source_warehouse_id = some 8;
  transfer_warehouse_id = 6;
  dest_warehouse_id = 1;
  reject_reason = none;
  request_line_ids = asks 1 3 ∷ asks 2 4 ∷ [];
  picking_ids = [];
}

abbrev bought : OrderLine
bought = order_line market 5 (pos 7) record { numerator = pos 100; denominator = pos 1 }

abbrev order : PurchaseVals
order = prepare_purchase_order_values market request 6 (bought ∷ [])

made : create_purchase_order_inter_company env market 8 request ≡ ok order
unfolding create_purchase_order_inter_company validate_request_available_qty
    get_product_request_total_qty prepare_purchase_order_line prepare_order_lines order_lines_loop
    ◌+ℤ◌
made = refl

prepare_order_lines_lem_example :
    ((lines : List OrderLine) × (prepare_order_lines (seller_line market) ((5, pos 7) ∷ [])
        ≡ ok lines)
      × All₂ (λ q line. seller_line market q ≡ some line) ((5, pos 7) ∷ []) lines)
    ⊎ ((prepare_order_lines (seller_line market) ((5, pos 7) ∷ [])
          ≡ err (no_price (unpriced (seller_line market) ((5, pos 7) ∷ []))))
        × (unpriced (seller_line market) ((5, pos 7) ∷ []) ≢ []))
prepare_order_lines_lem_example = prepare_order_lines_lem (seller_line market) ((5, pos 7) ∷ [])

create_purchase_order_inter_company_lem_example :
    ((product : ℕ)
      → having product_of_line product request.request_line_ids ≢ []
      → (asked_for product request ≤ℤ env.qty_available 8 product)
        × (lookup product (bought_of order) ≡ some (asked_for product request)))
    × ((product : ℕ)
        → having product_of_line product request.request_line_ids ≡ []
        → lookup product (bought_of order) ≡ none)
    × IsDict (bought_of order)
    × All (IsPriced market) order.order_line
unfolding prepare_purchase_order_values
create_purchase_order_inter_company_lem_example =
    create_purchase_order_inter_company_lem env market 8 request order made

-- A file with one request of two lines.
abbrev company_field : Text
company_field = b'c' ∷ []

abbrev warehouse_field : Text
warehouse_field = b'w' ∷ []

abbrev header : List Text
header = (b'd' ∷ []) ∷ company_field ∷ warehouse_field ∷ []

abbrev file : List (List Text)
file = ((b'1' ∷ []) ∷ (b'A' ∷ []) ∷ (b'B' ∷ []) ∷ []) ∷ ([] ∷ [] ∷ [] ∷ []) ∷ []

abbrev importing : Context
importing = record {
  import_file = true;
  default_transfer_request_type = some TransferRequestType.inter;
}

passes : validate_required_field importing company_field warehouse_field header file ≡ ok tt
unfolding validate_required_field check_lines
passes = refl

validate_required_field_iff_example :
    (validate_required_field importing company_field warehouse_field header file ≡ ok tt)
    ↔ ((true && true) ≡ true → All (IsComplete 1 2) file)
validate_required_field_iff_example =
    validate_required_field_iff importing company_field warehouse_field header 1 2 file refl refl
