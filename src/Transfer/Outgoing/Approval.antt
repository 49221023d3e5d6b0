-- ===== src/Transfer/Outgoing/Approval.antt =====
-- What an approval does to the requests, and when it goes through.
use hai_compnay.Common.{
  ℕ, List, [], ◌∷◌, ◌++◌, some, ◌≡◌, refl, subst, ◌∙◌, ok, bind-Returns, arith, All, All₂,
  codes_key, inl, inr, Option-cases,
}
use hai_compnay.Common.Int.{ℤ, total, int_laws}
use hai_compnay.Common.Dict.Group.{total-append_by}
use hai_compnay.Transfer.Model.{State, Picking, Request, Env}
use hai_compnay.Transfer.Lines.{prepare_stock_move_vals}
use hai_compnay.Transfer.Status.{check_approve_state, check_source_company_and_warehouse}
use hai_compnay.Transfer.Status.Progress.{check_approve_state_iff}
use hai_compnay.Transfer.Outgoing.{
  Ids, key_line, get_picking_data_foreach_location, create_pickings,
  create_picking_incoming_outgoing, approve_loop, action_am_approve,
}
use hai_compnay.Transfer.Outgoing.Pickings.{
  moved, asked, asked_by, IsOutgoing, create_pickings-eq-ok, groups-IsGroup,
}

-- What an approval does to a request: its new pickings all go out to the transit location, and the
-- moves in them add up to its lines, whatever a product and a quantity are counted for.
pub record IsApproved (env : Env) (r r' : Request) : Type 0 where
  pub made : List Picking
  pub transit : ℕ
  pub state : r'.state ≡ State.am_wh_approved
  pub lines : r'.request_line_ids ≡ r.request_line_ids
  pub pickings : r'.picking_ids ≡ r.picking_ids ++ made
  pub location : env.transit_location ≡ some transit
  pub outgoing : All (IsOutgoing env r transit) made
  pub conserved : (f : ℕ → ℤ → ℤ) → moved f made ≡ asked f r.request_line_ids

asked_lem :
    (f : ℕ → ℤ → ℤ) (env : Env) (r : Request)
    → total (λ g. total (asked_by f) g.1) (get_picking_data_foreach_location env r)
      ≡ asked f r.request_line_ids
unfolding get_picking_data_foreach_location prepare_stock_move_vals
asked_lem f env r =
    rw (total-append_by (key_line env r) (asked_by f) prepare_stock_move_vals [] r.request_line_ids)
      (omega int_laws)

abbrev approved : Request → List Picking → Request
approved r ps = record r { state = State.am_wh_approved; picking_ids = r.picking_ids ++ ps }

create_picking_incoming_outgoing-eq-ok :
    (env : Env) (ids : Ids) (r : Request) {ps : List Picking} {ids' : Ids}
    → create_picking_incoming_outgoing env ids r ≡ ok (ps, ids')
    → IsApproved env r (approved r ps)
unfolding create_picking_incoming_outgoing
create_picking_incoming_outgoing-eq-ok env ids r {ps} {ids'} h =
    elim (Option-cases env.transit_location) [
      | inl missing ↦ ground arith
      | inr (transit, found) ↦
          let groups = get_picking_data_foreach_location env r in
          let created : create_pickings env ids r transit groups ≡ ok (ps, ids') = ground arith in
          let made = λ (f : ℕ → ℤ → ℤ).
            create_pickings-eq-ok env r transit f groups ids (groups-IsGroup env r transit)
              created in
          record {
            made = ps;
            transit = transit;
            state = refl;
            lines = refl;
            pickings = refl;
            location = found;
            outgoing = (made (λ p q. q)).1;
            conserved = λ f. (made f).0 ∙ asked_lem f env r;
          }
    ]

approve_loop-eq-ok :
    (env : Env) (rs : List Request) (ids : Ids) {rs' : List Request} {ids' : Ids}
    → approve_loop env ids rs ≡ ok (rs', ids')
    → All₂ (IsApproved env) rs rs'
unfolding approve_loop
approve_loop-eq-ok env [] ids {rs'} h =
    let e : [] ≡ rs' = cc in subst (All₂ (IsApproved env) []) e tt
approve_loop-eq-ok env (r ∷ rs) ids {rs'} h =
    let ((ps, ids₁), made, rest) = bind-Returns (create_picking_incoming_outgoing env ids r) _ h in
    let ((qs, ids₂), others, end) = bind-Returns (approve_loop env ids₁ rs) _ rest in
    let e : approved r ps ∷ qs ≡ rs' = cc end in
    subst (All₂ (IsApproved env) (r ∷ rs)) e
      (create_picking_incoming_outgoing-eq-ok env ids r made, approve_loop-eq-ok env rs ids₁ others)

-- If the approval of a batch goes through, every request in it was approved by its manager, and each
-- becomes approved by area manager and warehouse, with its lines and earlier pickings kept and new
-- pickings that are drafts from its source location to the transit location; for any way to count
-- a product with a quantity, the moves of the new pickings add up to the lines.
pub action_am_approve-eq-ok :
    (env : Env) (ids : Ids) (rs : List Request) {rs' : List Request} {ids' : Ids}
    → action_am_approve env ids rs ≡ ok (rs', ids')
    → All (λ r. r.state ≡ State.manager_approved) rs × All₂ (IsApproved env) rs rs'
unfolding action_am_approve
action_am_approve-eq-ok env ids rs h =
    let (_, checked, rest) = bind-Returns (check_approve_state rs) _ h in
    let (_, named, looped) = bind-Returns (check_source_company_and_warehouse rs) _ rest in
    ((check_approve_state_iff rs).0 checked, approve_loop-eq-ok env rs ids looped)
