-- ===== src/Returns/Orders.antt =====
-- Purchase orders that are or have returns: a1_purchase_return/models/purchase_order.py.
pub mod Types
use hai_compnay.Common.{
  ℕ, List, [], ◌∷◌, map, Option, none, some, Bool, true, false, Result, ok, err, ◌>>=◌, ◌>>◌,
  raise_if, if◌then◌else◌, filtered, any, is_nonempty, not, ◌&&◌, ◌==◌, length,
}
use hai_compnay.Returns.Wizard.{Error, mixed_types, not_in_origin}
use hai_compnay.Returns.Purchase.{OrderState, is_cancelled}

pub data OrderType : Type 0 where
  purchase return_ : OrderType

pub data ReturnState : Type 0 where
  draft to_approve purchase done cancel : ReturnState

pub data MoveType : Type 0 where
  in_invoice in_refund : MoveType

-- An order, whose type may be unset: the products of its lines, those of the lines of the order that it comes from (if any),
-- and the states of its returns.
pub record Order : Type 0 where
  pub id : ℕ
  pub x_type : Option OrderType
  pub state : OrderState
  pub products : List ℕ
  pub origin_products : Option (List ℕ)
  pub return_states : List OrderState

abbrev pub is_return : Order → Bool
is_return o = go o.x_type
  where
    go : Option OrderType → Bool
    go (some OrderType.return_) = true
    go _ = false

abbrev pub is_purchase : Order → Bool
is_purchase o = go o.x_type
  where
    go : Option OrderType → Bool
    go (some OrderType.purchase) = true
    go _ = false

-- `MAP_STATE`
abbrev pub map_state : OrderState → ReturnState
map_state OrderState.draft = ReturnState.draft
map_state OrderState.sent = ReturnState.draft
map_state OrderState.to_approve = ReturnState.to_approve
map_state OrderState.purchase = ReturnState.purchase
map_state OrderState.done = ReturnState.done
map_state OrderState.cancel = ReturnState.cancel

abbrev pub compute_x_return_state : Order → ReturnState
compute_x_return_state o = map_state o.state

unfoldable pub compute_count_return_purchase : Order → ℕ
compute_count_return_purchase o = length (filtered (λ s. not (is_cancelled s)) o.return_states)

-- The type of the invoice that `_prepare_invoice` prepares, from Odoo's own.
abbrev pub prepare_invoice : Order → MoveType → MoveType
prepare_invoice o move_type = if is_return o then MoveType.in_refund else move_type

abbrev pub to_approve_return : Order → Order
to_approve_return o = record o { state = OrderState.to_approve }

abbrev pub foreign_products : List ℕ → List ℕ → List ℕ
foreign_products origin = filtered (λ p. not (any (λ q. p == q) origin))

abbrev pub check_products : List ℕ → Option (List ℕ) → Result Error (Unit {0})
check_products products none = ok tt
check_products products (some origin) =
    let current = foreign_products origin products in
    raise_if (is_nonempty current) (not_in_origin current)

unfoldable pub check_order_lines_match_origin : List Order → Result Error (Unit {0})
check_order_lines_match_origin [] = ok tt
check_order_lines_match_origin (o ∷ os) =
    let rest = check_order_lines_match_origin os in
    check_products o.products o.origin_products >> rest

-- `write` of a state: Odoo's own, and then the check on what was written.
unfoldable pub write_to_approve : List Order → Result Error (List Order)
unfolding check_order_lines_match_origin
write_to_approve orders =
    let written = map to_approve_return orders in
    check_order_lines_match_origin written >> ok written

-- `button_confirm`; `confirm` is Odoo's own. What it gives is the orders that it changed, afterwards.
unfoldable pub button_confirm :
    (List Order → Result Error (List Order)) → List Order → Result Error (List Order)
unfolding write_to_approve
button_confirm confirm orders =
    if any is_return orders && any is_purchase orders
    then err mixed_types
    else if not (any is_return orders)
    then confirm orders
    else write_to_approve (filtered is_return orders)
