-- ===== src/Returns/SaleOrders.antt =====
-- Sale orders that are or have returns: a1_sale_return/models/sale_order.py, with what
-- a1_sale_return/models/sale_order_line.py and stock_rule.py add for returns.
pub mod Confirmed
use hai_compnay.Common.{
  ℕ, List, [], ◌∷◌, ◌++◌, map, Option, none, some, Bool, true, false, Result, ok, err, ◌>>=◌, ◌>>◌,
  if◌then◌else◌, filtered, any, not, ◌&&◌, length,
}
use hai_compnay.Common.Int.{ℤ, pos, ◌+ℤ◌, abs}
use hai_compnay.Returns.Wizard.{Error, mixed_types}
use hai_compnay.Returns.Sale.{OrderState, is_cancelled}
use hai_compnay.Returns.Orders.{check_products}

pub data OrderType : Type 0 where
  sale return_ : OrderType

pub data ReturnState : Type 0 where
  draft sale cancel : ReturnState

pub data MoveType : Type 0 where
  out_invoice out_refund : MoveType

-- A line that is taken over from the original order, and the values for it.
pub record OrderLine : Type 0 where
  pub product_id : ℕ
  pub product_uom_qty : ℤ
  pub qty_delivered : ℤ
  pub qty_invoiced : ℤ
  pub price_unit : ℤ
  pub tax_id : List ℕ
  pub discount : ℤ

-- An order, with its returns' states; the type is a field that may be unset.
pub record Order : Type 0 where
  pub id : ℕ
  pub x_type : Option OrderType
  pub state : OrderState
  pub partner_id : ℕ
  pub commitment_date : Option ℕ
  pub order_line : List OrderLine
  pub return_states : List OrderState

abbrev pub is_return : Order → Bool
is_return o = go o.x_type
  where
    go : Option OrderType → Bool
    go (some OrderType.return_) = true
    go _ = false

abbrev pub is_sale : Order → Bool
is_sale o = go o.x_type
  where
    go : Option OrderType → Bool
    go (some OrderType.sale) = true
    go _ = false

-- `MAP_STATE`
abbrev pub map_state : OrderState → ReturnState
map_state OrderState.draft = ReturnState.draft
map_state OrderState.sent = ReturnState.draft
map_state OrderState.sale = ReturnState.sale
map_state OrderState.cancel = ReturnState.cancel

-- `none` is `False`.
abbrev pub compute_x_return_state : Order → Option ReturnState
compute_x_return_state o = if is_return o then some (map_state o.state) else none

abbrev pub compute_count_return_sale : Order → ℕ
compute_count_return_sale o = length (filtered (λ s. not (is_cancelled s)) o.return_states)

abbrev pub prepare_invoice : Order → MoveType → MoveType
prepare_invoice o move_type = if is_return o then MoveType.out_refund else move_type

-- `_prepare_sale_order_return_line`: all that was ordered.
abbrev pub prepare_sale_order_return_line : OrderLine → OrderLine
prepare_sale_order_return_line line = record line { qty_invoiced = line.product_uom_qty }

-- One round of `_onchange_x_origin_sale_id`, for an order with this origin.
abbrev pub onchange_x_origin_sale_id : Option Order → Order → Order
onchange_x_origin_sale_id none o = o
onchange_x_origin_sale_id (some origin) o = record o {
  commitment_date = origin.commitment_date;
  order_line = map prepare_sale_order_return_line origin.order_line;
  partner_id = origin.partner_id;
}

-- `confirm` is Odoo's own method, for the return in the context if there is one, and some orders.
module _ (confirm : Option Order → List Order → Result Error (List Order)) where
  -- The returns are confirmed one by one, each in the context of itself.
  unfoldable pub confirm_each : List Order → Result Error (List Order)
  confirm_each [] = ok []
  confirm_each (o ∷ os) =
      confirm (some o) (o ∷ []) >>= λ done. confirm_each os >>= λ rest. ok (done ++ rest)

  -- `action_confirm`. What it gives is the orders that it confirmed, afterwards.
  unfoldable pub action_confirm : List Order → Result Error (List Order)
  action_confirm orders =
      if any is_return orders && any is_sale orders
      then err mixed_types
      else if not (any is_return orders)
      then confirm none orders
      else confirm_each (filtered is_return orders)

abbrev pub product_of : OrderLine → ℕ
product_of line = line.product_id

-- `_check_order_lines_match_origin`, for orders with the orders that they come from.
unfoldable pub check_order_lines_match_origin :
    List (Order × Option Order) → Result Error (Unit {0})
check_order_lines_match_origin [] = ok tt
check_order_lines_match_origin ((o, none) ∷ os) = check_order_lines_match_origin os
check_order_lines_match_origin ((o, some origin) ∷ os) =
    let rest = check_order_lines_match_origin os in
    check_products (map product_of o.order_line) (some (map product_of origin.order_line)) >> rest

-- `_compute_qty_delivered` of a line, after Odoo's.
abbrev pub compute_qty_delivered : Order → ℤ → ℤ
compute_qty_delivered o qty_delivered = if is_return o then abs qty_delivered else qty_delivered

-- A line of an invoice for the line: whether its move counts (it is not cancelled, or is a legacy of the
-- invoicing before), whether it is a refund, and its quantity in the unit of the order line.
pub record InvoiceLine : Type 0 where
  pub counts : Bool
  pub is_out_refund : Bool
  pub quantity : ℤ

abbrev pub invoiced_loop : ℤ → List InvoiceLine → ℤ
invoiced_loop qty_invoiced [] = qty_invoiced
invoiced_loop qty_invoiced (l ∷ ls) =
    invoiced_loop (if l.counts && l.is_out_refund then qty_invoiced +ℤ l.quantity else qty_invoiced)
      ls

-- `_compute_qty_invoiced` of a line, after Odoo's.
abbrev pub compute_qty_invoiced : Order → List InvoiceLine → ℤ → ℤ
compute_qty_invoiced o ls qty_invoiced =
    if is_return o then invoiced_loop (pos 0) ls else qty_invoiced

-- The fields of a move's values that `_get_stock_move_values` changes for a return.
pub record MoveValues : Type 0 where
  pub date : ℕ
  pub date_deadline : ℕ
  pub location_id : ℕ
  pub location_dest_id : ℕ
  pub location_final_id : ℕ
  pub picking_type_id : Option ℕ
  pub to_refund : Bool

-- A return, as the context hands it over: its date, and its warehouse's incoming type.
pub record ReturnForPicking : Type 0 where
  pub date_order : ℕ
  pub in_type_id : Option ℕ

abbrev pub get_stock_move_values : Option ReturnForPicking → MoveValues → MoveValues
get_stock_move_values none res = res
get_stock_move_values (some o) res = record res {
  date = o.date_order;
  date_deadline = o.date_order;
  location_id = res.location_final_id;
  location_dest_id = res.location_id;
  picking_type_id = o.in_type_id;
  to_refund = true;
}
