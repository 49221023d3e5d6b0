-- ===== src/Returns/Cascade.antt =====
-- What a draft or cancelled refund does to the moves that its posting made:
-- a1_purchase_return/models/account_move.py, `button_draft`, `button_cancel` and the two methods that
-- they call. `call` is Odoo's own method on the moves with these identifiers.
pub mod Undone
pub mod Restored
use hai_compnay.Common.{
  ℕ, List, [], ◌∷◌, map, Option, none, some, Bool, true, false, Result, ok, ◌>>=◌, if◌then◌else◌,
  filtered, any, is_nonempty, not, ◌==◌,
}

pub data MoveState : Type 0 where
  draft posted cancel : MoveState

pub record AccountMove : Type 0 where
  pub id : ℕ
  pub state : MoveState
  pub x_origin_cog_move_id : Option ℕ

abbrev pub is_posted : AccountMove → Bool
is_posted m = elim m.state [ MoveState.posted ↦ true | _ ↦ false ]

abbrev pub is_not_cancelled : AccountMove → Bool
is_not_cancelled m = elim m.state [ MoveState.cancel ↦ false | _ ↦ true ]

abbrev pub mem : ℕ → List ℕ → Bool
mem i = any (λ j. i == j)

abbrev pub is_among : List ℕ → Option ℕ → Bool
is_among ids none = false
is_among ids (some origin) = mem origin ids

-- `search([('x_origin_cog_move_id', 'in', ids)])`
abbrev pub cog_moves_of : List ℕ → List AccountMove → List AccountMove
cog_moves_of ids = filtered (λ m. is_among ids m.x_origin_cog_move_id)

abbrev pub id_of : AccountMove → ℕ
id_of m = m.id

-- `unlink`
abbrev pub unlinked : List ℕ → List AccountMove → List AccountMove
unlinked ids = filtered (λ m. not (mem m.id ids))

module _ {E : Type 0} (call : List ℕ → List AccountMove → Result E (List AccountMove)) where
  -- Both methods: the moves that pass the test are drafted or cancelled, in a context in which they
  -- have no cascade of their own, and all are deleted.
  unfoldable pub back_cog_move :
      (AccountMove → Bool) → List ℕ → List AccountMove → Result E (List AccountMove)
  back_cog_move test ids db =
      let cog_move_ids = cog_moves_of ids db in
      if not (is_nonempty cog_move_ids)
      then ok db
      else (call (map id_of (filtered test cog_move_ids)) db >>= λ called.
          ok (unlinked (map id_of cog_move_ids) called))

  unfoldable pub action_back_cog_move_draft :
      List ℕ → List AccountMove → Result E (List AccountMove)
  unfolding back_cog_move
  action_back_cog_move_draft = back_cog_move is_posted

  unfoldable pub action_back_cog_move_cancel :
      List ℕ → List AccountMove → Result E (List AccountMove)
  unfolding back_cog_move
  action_back_cog_move_cancel = back_cog_move is_not_cancelled

  -- The flag is the context's `back_cog_move_draft`.
  unfoldable pub button_draft : Bool → List ℕ → List AccountMove → Result E (List AccountMove)
  unfolding action_back_cog_move_draft
  button_draft back_cog_move_draft ids db = call ids db >>= λ called.
      if back_cog_move_draft then ok called else action_back_cog_move_draft ids called

  -- The flag is the context's `back_cog_move_cancel`.
  unfoldable pub button_cancel : Bool → List ℕ → List AccountMove → Result E (List AccountMove)
  unfolding action_back_cog_move_cancel
  button_cancel back_cog_move_cancel ids db = call ids db >>= λ called.
      if back_cog_move_cancel then ok called else action_back_cog_move_cancel ids called
