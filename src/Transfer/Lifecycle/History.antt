-- ===== src/Transfer/Lifecycle/History.antt =====
-- What must have happened to a request that is approved, in transit or done.
use hai_compnay.Common.{[], ◌∷◌, ◌≡◌, ◌≢◌, sym, ap, subst, ◌∙◌, ◌⊎◌, inl, inr, arith, bind-Returns}
use hai_compnay.Transfer.Model.{State, Request, Picking, Env}
use hai_compnay.Transfer.Status.{
  action_draft, action_manager_approve, action_cancel, action_post, action_stock_transfer_request,
  check_and_update_state, validate_request_line_ids_items,
}
use hai_compnay.Transfer.Status.Progress.{IsReceived, IsSent, check_and_update_state_iff}
use hai_compnay.Transfer.Outgoing.Approval.{action_am_approve-eq-ok}
use hai_compnay.Transfer.Incoming.{check_and_update_transfer_request_state}
use hai_compnay.Transfer.Lifecycle.{
  Step, draft, post, manager_approve, am_approve, cancel, refuse, validated, edit, Run, here, next,
  Visited,
}

-- How a step may have reached the state that it ends in.
record Origin (env : Env) (t u : Request) : Type 0 where
  approved :
      u.state ≡ State.am_wh_approved
      → (t.state ≡ State.am_wh_approved) ⊎ (t.state ≡ State.manager_approved)
  sent : u.state ≡ State.in_transit → (t.state ≡ State.in_transit) ⊎ IsSent env t
  received : u.state ≡ State.done → (t.state ≡ State.done) ⊎ IsReceived env t

same-Origin : (env : Env) (t u : Request) → u.state ≡ t.state → Origin env t u
same-Origin env t u e = record {
  approved = λ h. inl (sym e ∙ h);
  sent = λ h. inl (sym e ∙ h);
  received = λ h. inl (sym e ∙ h);
}

-- The other states that a button sets.
other-Origin :
    (env : Env) (t u : Request)
    → u.state ≢ State.am_wh_approved
    → u.state ≢ State.in_transit
    → u.state ≢ State.done
    → Origin env t u
other-Origin env t u a b c = record {
  approved = λ h. absurd (a h);
  sent = λ h. absurd (b h);
  received = λ h. absurd (c h);
}

check_and_update_state-Origin :
    (env : Env) (t : Request) → Origin env t (check_and_update_state env t)
check_and_update_state-Origin env t = record {
  approved = unfold check_and_update_state in ground arith;
  sent = λ h. ground (arith, (check_and_update_state_iff env t).1.0 h);
  received = λ h. ground (arith, (check_and_update_state_iff env t).0.0 h);
}

validated_cases :
    (env : Env) (t : Request) (p : Picking)
    → (check_and_update_transfer_request_state env t p ≡ check_and_update_state env t)
      ⊎ (check_and_update_transfer_request_state env t p ≡ t)
unfolding check_and_update_transfer_request_state
validated_cases env t p = ground arith

Step-Origin : (env : Env) {t u : Request} → Step env t u → Origin env t u
unfolding action_draft action_manager_approve action_cancel action_post
    action_stock_transfer_request
Step-Origin env {t} {u} (draft e) =
    other-Origin env t u (λ h. cc (e, h)) (λ h. cc (e, h)) (λ h. cc (e, h))
Step-Origin env {t} {u} (post e) =
    let (_, checked, set) = bind-Returns (validate_request_line_ids_items (t ∷ [])) _ e in
    other-Origin env t u (λ h. cc) (λ h. cc) (λ h. cc)
Step-Origin env {t} {u} (manager_approve e) = other-Origin env t u (λ h. cc) (λ h. cc) (λ h. cc)
Step-Origin env {t} {u} (am_approve ids ids' e) =
    let (states, changed) = action_am_approve-eq-ok env ids (t ∷ []) e in
    record {
      approved = λ h. inr states.0;
      sent = λ h. cc (changed.0.state, h);
      received = λ h. cc (changed.0.state, h);
    }
Step-Origin env {t} {u} (cancel e) = other-Origin env t u (λ h. cc) (λ h. cc) (λ h. cc)
Step-Origin env {t} {u} (refuse reason e) = other-Origin env t u (λ h. cc) (λ h. cc) (λ h. cc)
Step-Origin env {t} {u} (validated p e) = elim (validated_cases env t p) [
  | inl updated ↦ subst (Origin env t) (sym updated ∙ e) (check_and_update_state-Origin env t)
  | inr kept ↦ same-Origin env t u (ap (λ r. r.state) (sym e ∙ kept))
]
Step-Origin env {t} {u} (edit e) = same-Origin env t u e

Visited-last :
    (env : Env) (P : Request → Type 0) {r u : Request} (run : Run env r u)
    → P u
    → Visited env P r run
Visited-last env P here h = h
Visited-last env P (next run step) h = inr h

-- A request that began outside the state approved by area manager and warehouse, and is in it, was
-- in the state approved by its manager before.
pub Run-approved :
    (env : Env) {r u : Request} (run : Run env r u)
    → r.state ≢ State.am_wh_approved
    → u.state ≡ State.am_wh_approved
    → Visited env (λ t. t.state ≡ State.manager_approved) r run
Run-approved env here start h = absurd (start h)
Run-approved env (next run step) start h = elim ((Step-Origin env step).approved h) [
  | inl before ↦ inl (Run-approved env run start before)
  | inr approved ↦ inl (Visited-last env (λ t. t.state ≡ State.manager_approved) run approved)
]

-- A request that began outside the state in transit, and is in it, had at some time outgoing
-- pickings, all of them done.
pub Run-IsSent :
    (env : Env) {r u : Request} (run : Run env r u)
    → r.state ≢ State.in_transit
    → u.state ≡ State.in_transit
    → Visited env (IsSent env) r run
Run-IsSent env here start h = absurd (start h)
Run-IsSent env (next run step) start h = elim ((Step-Origin env step).sent h) [
  | inl before ↦ inl (Run-IsSent env run start before)
  | inr sent ↦ inl (Visited-last env (IsSent env) run sent)
]

-- A request that began outside the state done, and is done, had at some time incoming pickings, all
-- of them done.
pub Run-IsReceived :
    (env : Env) {r u : Request} (run : Run env r u)
    → r.state ≢ State.done
    → u.state ≡ State.done
    → Visited env (IsReceived env) r run
Run-IsReceived env here start h = absurd (start h)
Run-IsReceived env (next run step) start h = elim ((Step-Origin env step).received h) [
  | inl before ↦ inl (Run-IsReceived env run start before)
  | inr received ↦ inl (Visited-last env (IsReceived env) run received)
]
