-- ===== src/Transfer/Lots.antt =====
-- models/stock_picking.py: the loop, in `create_picking_in_for_internal_transfer` and twice in
-- `_create_inter_company_purchase`, that gives the lines of one picking the lots of another's.
pub mod Paired
use hai_compnay.Common.{
  ℕ, List, [], ◌∷◌, ◌++◌, Option, none, some, Bool, true, false, if◌then◌else◌, nat_key,
}
use hai_compnay.Common.Dict.{Dict, lookup, modify}

pub record MoveLine : Type 0 where
  pub id : ℕ
  pub lot_id : Option ℕ

-- `has_tracking` of a move is how its product is tracked, a selection, and `none` where it is not
-- set. A selection is true in a test if it is set, also to the value `none` of Odoo, here `untracked`.
pub data Tracking : Type 0 where
  serial lot untracked : Tracking

pub record TrackedMove : Type 0 where
  pub product_id : ℕ
  pub has_tracking : Option Tracking
  pub move_line_ids : List MoveLine

-- `if move.has_tracking`
abbrev pub is_set : Option Tracking → Bool
is_set none = false
is_set (some tracking) = true

-- `{move.product_id: iter(move.move_line_ids) for move in moves if move.has_tracking}`: an iterator is
-- the lines that it has left, and the last move of a product counts.
unfoldable pub current_move_line_map :
    Dict ℕ (List MoveLine) → List TrackedMove → Dict ℕ (List MoveLine)
current_move_line_map d [] = d
current_move_line_map d (m ∷ ms) =
    current_move_line_map
      (if is_set m.has_tracking then modify m.product_id (λ _. m.move_line_ids) [] d else d) ms

-- One `zip` of a move's lines with an iterator: the lots given, and what the iterator has left.
abbrev pub zip_lots : List MoveLine → List MoveLine → List (ℕ × Option ℕ) × List MoveLine
zip_lots [] left = ([], left)
zip_lots (l ∷ ls) [] = ([], [])
zip_lots (l ∷ ls) (c ∷ cs) = let (given, left) = zip_lots ls cs in ((c.id, l.lot_id) ∷ given, left)

-- The iterator of a move, unless the round of the loop is skipped.
abbrev pub current_lines : Dict ℕ (List MoveLine) → TrackedMove → Option (List MoveLine)
current_lines d m = if is_set m.has_tracking then lookup m.product_id d else none

-- The loop over the moves: which line gets which lot, in order.
unfoldable pub lots_loop : Dict ℕ (List MoveLine) → List TrackedMove → List (ℕ × Option ℕ)
lots_loop d [] = []
lots_loop d (m ∷ ms) =
    let rest = lots_loop d ms in
    elim (current_lines d m) [
      | none ↦ rest
      | some current ↦
          let (given, left) = zip_lots m.move_line_ids current in
          given ++ lots_loop (modify m.product_id (λ _. left) [] d) ms
    ]

-- The lines of `current` get the lots of `moves`, if the picking has tracking, which is Odoo's own
-- Boolean of it.
unfoldable pub copy_lots : Bool → List TrackedMove → List TrackedMove → List (ℕ × Option ℕ)
copy_lots has_tracking moves current =
    if has_tracking then lots_loop (current_move_line_map [] current) moves else []
