-- ===== src/Transfer/Outgoing/Success.antt =====
-- An approval goes through under the conditions that the code checks.
use hai_compnay.Common.{
  ℕ, List, [], ◌∷◌, ◌++◌, some, ◌≡◌, refl, ok, is_nonempty, arith, All, filtered, map, false,
}
use hai_compnay.Common.Decimal.{Text}
use hai_compnay.Common.Dict.{Dict}
use hai_compnay.Transfer.Model.{State, Picking, Request, Env}
use hai_compnay.Transfer.Lines.{MoveVals}
use hai_compnay.Transfer.Status.{name_of, lacks_source, check_source_company_and_warehouse}
use hai_compnay.Transfer.Status.Progress.{check_approve_state_iff}
use hai_compnay.Transfer.Outgoing.{
  Ids, get_picking_data_foreach_location, create_picking_out, create_stock_picking_in_out,
  create_pickings, create_picking_incoming_outgoing, approve_loop, action_am_approve,
}
use hai_compnay.Transfer.Outgoing.Pickings.{IsGroup, groups-IsGroup}

-- What a call needs of its data: the checks pass, and the source has an internal picking type.
pub record IsReady (env : Env) (r : Request) : Type 0 where
  pub approved : r.state ≡ State.manager_approved
  pub has_source : lacks_source r ≡ false
  pub picking_type : ℕ
  pub found :
      env.internal_picking_type (env.warehouse_id (env.lot_stock_id r.transfer_warehouse_id))
      ≡ some picking_type

module _ (env : Env) (r : Request) (transit t : ℕ)
    (found : env.internal_picking_type (env.warehouse_id (env.lot_stock_id r.transfer_warehouse_id))
      ≡ some t) where
  create_stock_picking_in_out-ok :
      (ids : Ids) (key : Text) (vals : List MoveVals)
      → IsGroup env r transit (key, vals)
      → (out : Picking × Ids) × (create_stock_picking_in_out env ids r transit key vals ≡ ok out)
  unfolding create_stock_picking_in_out
  create_stock_picking_in_out-ok ids key vals ((w, from), vs) = (
    create_picking_out env ids r t (env.lot_stock_id r.transfer_warehouse_id) transit w vals,
    ground arith,
  )

  create_pickings-ok :
      (groups : Dict Text (List MoveVals)) (ids : Ids)
      → All (IsGroup env r transit) groups
      → (out : List Picking × Ids) × (create_pickings env ids r transit groups ≡ ok out)
  unfolding create_pickings
  create_pickings-ok [] ids gs = (([], ids), refl)
  create_pickings-ok ((key, vals) ∷ groups) ids (g, gs) =
      let ((p, ids'), made) = create_stock_picking_in_out-ok ids key vals g in
      let ((ps, ids''), others) = create_pickings-ok groups ids' gs in
      ((p ∷ ps, ids''), rw (made, others) refl)

approve_loop-ok :
    (env : Env) (transit : ℕ) (rs : List Request) (ids : Ids)
    → env.transit_location ≡ some transit
    → All (IsReady env) rs
    → (out : List Request × Ids) × (approve_loop env ids rs ≡ ok out)
unfolding approve_loop create_picking_incoming_outgoing
approve_loop-ok env transit [] ids found h = (([], ids), refl)
approve_loop-ok env transit (r ∷ rs) ids found (h, hs) =
    let groups = get_picking_data_foreach_location env r in
    let ((ps, ids'), made) =
      create_pickings-ok env r transit h.picking_type h.found groups ids
        (groups-IsGroup env r transit) in
    let ((rs', ids''), others) = approve_loop-ok env transit rs ids' found hs in
    (
      (record r { state = State.am_wh_approved; picking_ids = r.picking_ids ++ ps } ∷ rs', ids''),
      ground arith,
    )

sources_named :
    (rs : List Request)
    → All (λ r. lacks_source r ≡ false) rs
    → is_nonempty (map name_of (filtered lacks_source rs)) ≡ false
sources_named [] h = refl
sources_named (r ∷ rs) (h, hs) = rw h (sources_named rs hs)

ready_parts :
    (env : Env) (rs : List Request)
    → All (IsReady env) rs
    → All (λ r. r.state ≡ State.manager_approved) rs × All (λ r. lacks_source r ≡ false) rs
ready_parts env [] h = (tt, tt)
ready_parts env (r ∷ rs) (h, hs) =
    let (a, b) = ready_parts env rs hs in ((h.approved, a), (h.has_source, b))

-- If Odoo finds a transit location, and every request was approved by its manager, names what its
-- type needs and has an internal picking type at its source, then the approval goes through.
pub action_am_approve-ok :
    (env : Env) (ids : Ids) (transit : ℕ) (rs : List Request)
    → env.transit_location ≡ some transit
    → All (IsReady env) rs
    → (out : List Request × Ids) × (action_am_approve env ids rs ≡ ok out)
unfolding action_am_approve check_source_company_and_warehouse
action_am_approve-ok env ids transit rs found h =
    let (states, sources) = ready_parts env rs h in
    let (out, looped) = approve_loop-ok env transit rs ids found h in
    (out, rw ((check_approve_state_iff rs).1 states, sources_named rs sources, looped) refl)
