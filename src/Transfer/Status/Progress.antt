-- ===== src/Transfer/Status/Progress.antt =====
-- What the state of a request says of its pickings, and what the checks let pass.
use hai_compnay.Common.{
  List, [], ◌∷◌, map, ◌≡◌, refl, ◌↔◌, ◌⊎◌, inl, inr, true, false, not, ok, arith, filtered,
  is_nonempty, All, Bool-cases,
}
use hai_compnay.Transfer.Model.{State, Request, Env}
use hai_compnay.Transfer.Status.{
  name_of, is_manager_approved, check_approve_state, picking_in_ids, picking_out_ids, all_done,
  check_and_update_state, unlink,
}

-- All pickings into the destination are done, and there is one.
abbrev pub IsReceived : Env → Request → Type 0
IsReceived env r =
    (is_nonempty (picking_in_ids env r) ≡ true) × (all_done (picking_in_ids env r) ≡ true)

abbrev pub IsSent : Env → Request → Type 0
IsSent env r =
    (is_nonempty (picking_out_ids env r) ≡ true) × (all_done (picking_out_ids env r) ≡ true)

-- After the update a request is done exactly when its incoming pickings are all done (there being
-- one), or it was done, that does not hold of its incoming pickings, nor of its outgoing ones that
-- they are all done (there being one). It is in transit exactly when it does not hold of its incoming
-- pickings, and either all outgoing ones are done (there being one) or it was in transit.
pub check_and_update_state_iff :
    (env : Env) (r : Request)
    → let s = (check_and_update_state env r).state in
      ((s ≡ State.done)
        ↔ (IsReceived env r ⊎ ((r.state ≡ State.done) × ¬ IsReceived env r × ¬ IsSent env r)))
      × ((s ≡ State.in_transit)
          ↔ (¬ IsReceived env r × (IsSent env r ⊎ (r.state ≡ State.in_transit))))
unfolding check_and_update_state
check_and_update_state_iff env r = elim (Bool-cases (is_nonempty (picking_in_ids env r))) [
  | inl i ↦ elim (Bool-cases (all_done (picking_in_ids env r))) [
    | inl d ↦ rw (i, d) (ground arith)
    | inr d ↦ rw (i, d) (ground arith)
  ]
  | inr i ↦ rw i (ground arith)
]

-- Updating twice is updating once.
pub check_and_update_state_idem :
    (env : Env) (r : Request)
    → check_and_update_state env (check_and_update_state env r) ≡ check_and_update_state env r
unfolding check_and_update_state
check_and_update_state_idem env r = elim (Bool-cases (is_nonempty (picking_in_ids env r))) [
  | inl i ↦ elim (Bool-cases (all_done (picking_in_ids env r))) [
    | inl d ↦ rw (i, d) (rw (i, d) refl)
    | inr d ↦ ground arith
  ]
  | inr i ↦ ground arith
]

refused_iff :
    (rs : List Request)
    → (is_nonempty (map name_of (filtered (λ r. not (is_manager_approved r)) rs)) ≡ false)
      ↔ All (λ r. r.state ≡ State.manager_approved) rs
refused_iff [] = ground arith
refused_iff (r ∷ rs) = ground (arith, refused_iff rs)

-- The approval's check passes exactly when every record is in the manager-approved state.
pub check_approve_state_iff :
    (rs : List Request)
    → (check_approve_state rs ≡ ok tt) ↔ All (λ r. r.state ≡ State.manager_approved) rs
unfolding check_approve_state
check_approve_state_iff rs = ground (arith, refused_iff rs)

-- Records are deleted only if every one of them is a draft or cancelled.
pub unlink_iff :
    (rs : List Request)
    → (unlink rs ≡ ok tt) ↔ All (λ r. (r.state ≡ State.draft) ⊎ (r.state ≡ State.cancel)) rs
unfolding unlink
unlink_iff [] = (λ h. tt, λ h. refl)
unlink_iff (r ∷ rs) = ground (arith, unlink_iff rs)
