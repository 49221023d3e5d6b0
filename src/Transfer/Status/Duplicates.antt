-- ===== src/Transfer/Status/Duplicates.antt =====
-- A request passes the check of its lines exactly when no two ask for the same product at the same
-- warehouse.
use hai_compnay.Common.{
  ℕ, List, [], ◌∷◌, ◌≡◌, ◌≢◌, refl, ◌↔◌, true, false, ok, arith, any, is_nonempty, All,
}
use hai_compnay.Transfer.Model.{RequestLine, Request}
use hai_compnay.Transfer.Status.{item_key, same_key, duplicates, validate_request_line_ids_items}

-- The keys are pairwise different.
abbrev pub IsDistinct : List RequestLine → Type 0
IsDistinct [] = Unit
IsDistinct (line ∷ lines) = All (λ l. item_key line ≢ item_key l) lines × IsDistinct lines

same_key_iff : (a b : ℕ × ℕ) → (same_key a b ≡ true) ↔ (a ≡ b)
same_key_iff a b = ground arith

abbrev IsUnseen : List (ℕ × ℕ) → RequestLine → Type 0
IsUnseen seen line = any (same_key (item_key line)) seen ≡ false

IsUnseen-cons :
    (key : RequestLine) (seen : List (ℕ × ℕ)) (lines : List RequestLine)
    → All (IsUnseen (item_key key ∷ seen)) lines
      ↔ (All (λ l. item_key key ≢ item_key l) lines × All (IsUnseen seen) lines)
IsUnseen-cons key seen [] = (λ h. (tt, tt), λ h. tt)
IsUnseen-cons key seen (l ∷ ls) =
    ground (arith, same_key_iff (item_key l) (item_key key), IsUnseen-cons key seen ls)

duplicates_iff :
    (seen : List (ℕ × ℕ)) (lines : List RequestLine)
    → (duplicates seen lines ≡ []) ↔ (All (IsUnseen seen) lines × IsDistinct lines)
unfolding duplicates
duplicates_iff seen [] = (λ h. (tt, tt), λ h. refl)
duplicates_iff seen (l ∷ ls) =
    ground (arith, duplicates_iff (item_key l ∷ seen) ls, IsUnseen-cons l seen ls)

All-IsUnseen : (lines : List RequestLine) → All (IsUnseen []) lines
All-IsUnseen [] = tt
All-IsUnseen (l ∷ ls) = (refl, All-IsUnseen ls)

nonempty_iff : (xs : List (ℕ × ℕ)) → (is_nonempty xs ≡ false) ↔ (xs ≡ [])
nonempty_iff [] = ground arith
nonempty_iff (x ∷ xs) = ground arith

-- The check passes exactly when, in every request, no two lines ask for the same product at the
-- same destination warehouse.
pub validate_request_line_ids_items_iff :
    (rs : List Request)
    → (validate_request_line_ids_items rs ≡ ok tt) ↔ All (λ r. IsDistinct r.request_line_ids) rs
unfolding validate_request_line_ids_items
validate_request_line_ids_items_iff [] = (λ h. tt, λ h. refl)
validate_request_line_ids_items_iff (r ∷ rs) = ground (
  arith,
  nonempty_iff (duplicates [] r.request_line_ids),
  duplicates_iff [] r.request_line_ids,
  All-IsUnseen r.request_line_ids,
  validate_request_line_ids_items_iff rs,
)
