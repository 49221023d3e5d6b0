-- ===== src/Transfer/Incoming/Mirror.antt =====
-- The incoming picking brings in what the outgoing one sent.
use hai_compnay.Common.{
  ℕ, List, [], ◌∷◌, ◌++◌, map, none, ◌≡◌, refl, ◌↔◌, arith, ok, All, ◌≢◌, ◌&&◌, Option-cases,
  filtered, is_nonempty, not, Bool, false, Bool-cases, inl, inr, ◌==◌, if◌then◌else◌,
}
use hai_compnay.Common.Int.{ℤ, pos, total, eqb_ℤ_iff}
use hai_compnay.Transfer.Model.{MoveState, Usage, StockMove, Picking, Env, is_internal}
use hai_compnay.Transfer.Status.{is_missing}
use hai_compnay.Transfer.Incoming.{differs, mismatch, check_quantity_with_transfer_request}

-- A copy takes over where the move ends, with what the move did as its demand.
pub record IsCopy (location_dest : ℕ) (move copy : StockMove) : Type 0 where
  pub product : copy.product_id ≡ move.product_id
  pub start : copy.location_id ≡ move.location_dest_id
  pub finish : copy.location_dest_id ≡ location_dest
  pub demand : copy.product_uom_qty ≡ move.quantity
  pub quantity : copy.quantity ≡ move.quantity
  pub line : copy.x_transfer_request_line_id ≡ move.x_transfer_request_line_id
  pub state : copy.state ≡ MoveState.draft

-- A linked move is as before, but that it leads to all the new moves as well.
abbrev pub IsLinked : List ℕ → StockMove → StockMove → Type 0
IsLinked new_ids move move' = move' ≡ record move { move_dest_ids = move.move_dest_ids ++ new_ids }

-- The quantities of a product, as what was asked for and as what was done.
abbrev pub demand_of : ℕ → List StockMove → ℤ
demand_of product moves =
    total (λ m. if m.product_id == product then m.product_uom_qty else pos 0) moves

abbrev pub done_of : ℕ → List StockMove → ℤ
done_of product moves = total (λ m. if m.product_id == product then m.quantity else pos 0) moves

matches_iff :
    (moves : List StockMove)
    → (is_nonempty (map mismatch (filtered differs moves)) ≡ false)
      ↔ All (λ m. m.quantity ≡ m.product_uom_qty) moves
matches_iff [] = (λ h. tt, λ h. refl)
matches_iff (m ∷ ms) = ground (arith, eqb_ℤ_iff m.quantity m.product_uom_qty, matches_iff ms)

abbrev pub IsExact : Env → Picking → Type 0
IsExact env p =
    p.x_stock_transfer_request_id ≢ none
    → env.usage p.location_dest_id ≡ Usage.internal
    → All (λ m. m.quantity ≡ m.product_uom_qty) p.move_ids

abbrev refuses : Env → Picking → Bool
refuses env p =
    not (is_missing p.x_stock_transfer_request_id)
    && is_internal (env.usage p.location_dest_id)
    && is_nonempty (map mismatch (filtered differs p.move_ids))

refuses_iff : (env : Env) (p : Picking) → (refuses env p ≡ false) ↔ IsExact env p
refuses_iff env p = (
  λ h asked usage. (matches_iff p.move_ids).0 (ground arith),
  λ exact. elim (Option-cases p.x_stock_transfer_request_id) [
    | inl missing ↦ ground arith
    | inr (i, request) ↦ elim (Bool-cases (is_internal (env.usage p.location_dest_id))) [
      | inr other ↦ ground arith
      | inl incoming ↦
          let same = (matches_iff p.move_ids).1 (exact (λ e. cc) (ground arith)) in ground arith
    ]
  ],
)

-- The check of the incoming quantities passes exactly when, in every picking of a transfer request
-- that ends in an internal location, each move did just what was asked of it.
pub check_quantity_with_transfer_request_iff :
    (env : Env) (ps : List Picking)
    → (check_quantity_with_transfer_request env ps ≡ ok tt) ↔ All (IsExact env) ps
unfolding check_quantity_with_transfer_request
check_quantity_with_transfer_request_iff env [] = (λ h. tt, λ h. refl)
check_quantity_with_transfer_request_iff env (p ∷ ps) =
    ground (arith, refuses_iff env p, check_quantity_with_transfer_request_iff env ps)
