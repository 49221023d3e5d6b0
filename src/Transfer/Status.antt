-- ===== src/Transfer/Status.antt =====
-- models/stock_transfer_request.py: the buttons that set a request's state, the checks before them,
-- and the state that follows from the pickings; wizards/reject_stock_transfer_request.py.
pub mod Progress
pub mod Duplicates
use Prim.Native.String.{String}
use hai_compnay.Common.{
  ℕ, List, [], ◌∷◌, map, Option, none, some, Bool, true, false, not, ◌&&◌, ◌||◌, Result, ok, err,
  ◌>>=◌, ◌>>◌, raise_if, if◌then◌else◌, ◌==◌, filtered, all, any, is_nonempty,
}
use hai_compnay.Transfer.Model.{
  State, draft, cancel, TransferRequestType, RequestLine, Request, Picking, Env, Error,
  duplicated_items, not_manager_approved, missing_source, not_deletable, is_done, is_transit,
  is_internal,
}

abbrev pub is_missing {ℓ} : {A : Type ℓ} → Option A → Bool
is_missing none = true
is_missing (some a) = false

abbrev pub set_state : State → Request → Request
set_state s record_ = record record_ { state = s }

unfoldable pub action_draft : List Request → List Request
action_draft = map (set_state State.draft)

unfoldable pub action_manager_approve : List Request → List Request
action_manager_approve = map (set_state State.manager_approved)

unfoldable pub action_cancel : List Request → List Request
action_cancel = map (set_state State.cancel)

-- `(line.product_id.id, line.dest_warehouse_id.id)`
abbrev pub item_key : RequestLine → ℕ × ℕ
item_key line = (line.product_id, line.dest_warehouse_id)

abbrev pub same_key : ℕ × ℕ → ℕ × ℕ → Bool
same_key (p, w) (q, v) = (p == q) && (w == v)

-- The loop over the lines of one request; `seen` holds the keys of `validate_dict`.
pub duplicates : List (ℕ × ℕ) → List RequestLine → List (ℕ × ℕ)
duplicates seen [] = []
duplicates seen (line ∷ lines) =
    let again = item_key line ∷ duplicates seen lines in
    let first = duplicates (item_key line ∷ seen) lines in
    if any (same_key (item_key line)) seen then again else first

pub validate_request_line_ids_items : List Request → Result Error (Unit {0})
unfolding duplicates
validate_request_line_ids_items [] = ok tt
validate_request_line_ids_items (r ∷ rs) =
    let found = duplicates [] r.request_line_ids in
    let rest = validate_request_line_ids_items rs in
    if is_nonempty found then err (duplicated_items found) else rest

unfoldable pub action_post : List Request → Result Error (List Request)
unfolding validate_request_line_ids_items
action_post rs = do validate_request_line_ids_items rs; ok (map (set_state State.posted) rs)

abbrev pub is_manager_approved : Request → Bool
is_manager_approved r = elim r.state [ State.manager_approved ↦ true | _ ↦ false ]

abbrev pub name_of : Request → String
name_of r = r.name

unfoldable pub check_approve_state : List Request → Result Error (Unit {0})
check_approve_state rs =
    let bad = map name_of (filtered (λ r. not (is_manager_approved r)) rs) in
    raise_if (is_nonempty bad) (not_manager_approved bad)

abbrev pub lacks_source : Request → Bool
lacks_source r = elim r.transfer_request_type [
  | TransferRequestType.inter ↦
      is_missing r.source_company_id
      || is_missing r.source_warehouse_id
      || is_missing r.expected_date
  | TransferRequestType.internal ↦ is_missing r.expected_date
]

unfoldable pub check_source_company_and_warehouse : List Request → Result Error (Unit {0})
check_source_company_and_warehouse rs =
    let bad = map name_of (filtered lacks_source rs) in
    raise_if (is_nonempty bad) (missing_source bad)

-- `unlink`: the records that Odoo may delete, or the first that it may not.
abbrev pub is_deletable : State → Bool
is_deletable State.draft = true
is_deletable State.cancel = true
is_deletable _ = false

pub unlink : List Request → Result Error (Unit {0})
unlink [] = ok tt
unlink (r ∷ rs) = let rest = unlink rs in if is_deletable r.state then rest else err not_deletable

-- `RejectPurchaseRequest.action_stock_transfer_request`, on what its search for the active request
-- found.
unfoldable pub action_stock_transfer_request : Option String → Option Request → Option Request
action_stock_transfer_request reason none = none
action_stock_transfer_request reason (some r) =
    some (record r { state = State.reject; reject_reason = reason })

abbrev pub picking_out_ids : Env → Request → List Picking
picking_out_ids env r = filtered (λ p. is_transit (env.usage p.location_dest_id)) r.picking_ids

abbrev pub picking_in_ids : Env → Request → List Picking
picking_in_ids env r = filtered (λ p. is_internal (env.usage p.location_dest_id)) r.picking_ids

abbrev pub all_done : List Picking → Bool
all_done = all (λ p. is_done p.state)

-- `_check_and_update_state`, on one record.
unfoldable pub check_and_update_state : Env → Request → Request
check_and_update_state env r =
    let outs = picking_out_ids env r in
    let ins = picking_in_ids env r in
    if is_nonempty ins && all_done ins
    then set_state State.done r
    else if is_nonempty outs && all_done outs && (is_nonempty ins && not (all_done ins))
    then set_state State.in_transit r
    else if is_nonempty outs && all_done outs && not (is_nonempty ins)
    then set_state State.in_transit r
    else r
