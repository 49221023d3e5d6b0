-- ===== src/Transfer/Tests/Lives.antt =====
-- The theorems on the life of a request, at a run of it.
use hai_compnay.Common.{[], ◌∷◌, ◌≡◌, refl}
use hai_compnay.Transfer.Model.{State, MoveState, Request, Picking}
use hai_compnay.Transfer.Status.{action_manager_approve}
use hai_compnay.Transfer.Status.Progress.{IsReceived}
use hai_compnay.Transfer.Incoming.{check_and_update_transfer_request_state}
use hai_compnay.Transfer.Status.{check_and_update_state}
use hai_compnay.Transfer.Lifecycle.{Run, Step, here, next, Visited}
use hai_compnay.Transfer.Lifecycle.History.{Run-approved, Run-IsReceived}
use hai_compnay.Transfer.Tests.{env, request, lines, picking, approved_one, ids, ids', approve_run}

abbrev first : Request
first = request State.draft lines []

abbrev second : Request
second = request State.manager_approved lines []

abbrev gone : Picking
gone = record (picking 70 2 []) { state = MoveState.done }

abbrev arrived : Picking
arrived = record (picking 80 2 []) { state = MoveState.done; location_dest_id = 102 }

abbrev going : Request
going = request State.am_wh_approved lines (gone ∷ [])

abbrev moving : Request
moving = request State.in_transit lines (gone ∷ [])

abbrev coming : Request
coming = request State.in_transit lines (gone ∷ arrived ∷ [])

abbrev over : Request
over = request State.done lines (gone ∷ arrived ∷ [])

to_second : Step env first second
unfolding action_manager_approve
to_second = Step.manager_approve refl

abbrev to_approved : Run env first approved_one
to_approved = next (next here to_second) (Step.am_approve ids ids' approve_run)

to_moving : Step env going moving
unfolding check_and_update_transfer_request_state check_and_update_state
to_moving = Step.validated gone refl

to_over : Step env coming over
unfolding check_and_update_transfer_request_state check_and_update_state
to_over = Step.validated arrived refl

abbrev to_sent : Run env first moving
to_sent = next (next to_approved (Step.edit {r' = going} refl)) to_moving

abbrev to_end : Run env first over
to_end = next (next to_sent (Step.edit {r' = coming} refl)) to_over

Run-approved_example : Visited env (λ t. t.state ≡ State.manager_approved) first to_approved
Run-approved_example = Run-approved env to_approved (λ e. cc) refl

Run-IsReceived_example : Visited env (IsReceived env) first to_end
Run-IsReceived_example = Run-IsReceived env to_end (λ e. cc) refl
