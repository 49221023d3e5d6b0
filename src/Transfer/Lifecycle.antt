-- ===== src/Transfer/Lifecycle.antt =====
-- The life of one request: the buttons, the wizard that rejects, the update after a picking, and the
-- edits that others make between them, as a step relation.
pub mod History
use Prim.Native.String.{String}
use hai_compnay.Common.{List, [], ◌∷◌, Option, some, ◌≡◌, ◌⊎◌, ok}
use hai_compnay.Transfer.Model.{Request, Picking, Env}
use hai_compnay.Transfer.Status.{
  action_draft, action_manager_approve, action_cancel, action_post, action_stock_transfer_request,
  check_and_update_state,
}
use hai_compnay.Transfer.Outgoing.{Ids, action_am_approve}
use hai_compnay.Transfer.Incoming.{check_and_update_transfer_request_state}

-- `edit` stands for what happens to a request beside these calls: lines, notes and pickings change.
pub data Step (env : Env) : Request → Request → Type 0 where
  draft : {r r' : Request} → action_draft (r ∷ []) ≡ r' ∷ [] → Step env r r'
  post : {r r' : Request} → action_post (r ∷ []) ≡ ok (r' ∷ []) → Step env r r'
  manager_approve : {r r' : Request} → action_manager_approve (r ∷ []) ≡ r' ∷ [] → Step env r r'
  am_approve :
      {r r' : Request} (ids ids' : Ids)
      → action_am_approve env ids (r ∷ []) ≡ ok (r' ∷ [], ids')
      → Step env r r'
  cancel : {r r' : Request} → action_cancel (r ∷ []) ≡ r' ∷ [] → Step env r r'
  refuse :
      {r r' : Request} (reason : Option String)
      → action_stock_transfer_request reason (some r) ≡ some r'
      → Step env r r'
  validated :
      {r r' : Request} (p : Picking)
      → check_and_update_transfer_request_state env r p ≡ r'
      → Step env r r'
  edit : {r r' : Request} → r'.state ≡ r.state → Step env r r'

pub data Run (env : Env) (r : Request) : Request → Type 0 where
  here : Run env r r
  next : {t u : Request} → Run env r t → Step env t u → Run env r u

-- Somewhere along the run, its ends included, the request was as `P` says.
abbrev pub Visited :
    (env : Env) (P : Request → Type 0) (r : Request) {u : Request} → Run env r u → Type 0
Visited env P r here = P r
Visited env P r (next {t} {u} run step) = Visited env P r run ⊎ P u
