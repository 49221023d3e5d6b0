-- ===== src/Returns/Wizard/Accepted.antt =====
-- Which lines a return wizard accepts, and what it makes of them.
use hai_compnay.Common.{
  ◌⊎◌, not, raise_if, ◌>>=◌, ◌>>◌, List, [], ◌∷◌, map, ◌≡◌, ◌≢◌, refl, ◌↔◌, arith, ok, err,
  filtered, is_nonempty, All, Bool-cases, inl, inr,
}
use hai_compnay.Common.Int.{ℤ, pos, ◌+ℤ◌, ◌≤ℤ◌, ◌<ℤ◌, ltb_ℤ, leb_ℤ, total, int_laws}
use hai_compnay.Returns.Wizard.{
  ReturnLine, Error, exceeds_remaining, not_positive, nothing_selected, no_quantity, selected,
  create_lines, return_lines, total_remaining_loop, compute_total_remaining_qty,
}

module _ {L : Type 0} where
  -- A quantity that may go back: positive, and no more than remains.
  abbrev pub IsReturnable : ReturnLine L → Type 0
  IsReturnable l = (pos 0 <ℤ l.return_qty) × (l.return_qty ≤ℤ l.remaining_qty)

  create_lines-ok :
      {V : Type 0} (prepare : ReturnLine L → V) (ls : List (ReturnLine L))
      → All IsReturnable ls
      → create_lines prepare ls ≡ ok (map prepare ls)
  unfolding create_lines
  create_lines-ok prepare [] h = refl
  create_lines-ok prepare (l ∷ ls) (h, hs) = ground (arith, create_lines-ok prepare ls hs)

  create_lines_cases :
      {V : Type 0} (prepare : ReturnLine L → V) (ls : List (ReturnLine L))
      → All IsReturnable ls ⊎ ((e : Error) × (create_lines prepare ls ≡ err e))
  unfolding create_lines
  create_lines_cases prepare [] = inl tt
  create_lines_cases prepare (l ∷ ls) = elim (Bool-cases (ltb_ℤ l.remaining_qty l.return_qty)) [
    | inl over ↦ inr (exceeds_remaining l.product_id, rw over refl)
    | inr within ↦ elim (Bool-cases (leb_ℤ l.return_qty (pos 0))) [
      | inl low ↦ inr (not_positive l.product_id, rw (within, low) refl)
      | inr positive ↦ elim (create_lines_cases prepare ls) [
        | inl hs ↦ inl (ground arith, hs)
        | inr (e, h) ↦ inr (e, ground arith)
      ]
    ]
  ]

  -- The wizard makes order lines exactly when a line is selected and every selected line asks for a
  -- positive quantity of at most what remains; they are the prepared selected lines, in order.
  pub return_lines_iff :
      {V : Type 0} (prepare : ReturnLine L → V) (ls : List (ReturnLine L)) (vals : List V)
      → (return_lines prepare ls ≡ ok vals) ↔ (
          (filtered selected ls ≢ [])
          × All IsReturnable (filtered selected ls)
          × (vals ≡ map prepare (filtered selected ls)))
  unfolding return_lines
  return_lines_iff prepare ls vals = (
    λ h. elim (create_lines_cases prepare (filtered selected ls)) [
      | inr (e, failed) ↦ ground arith
      | inl hs ↦
          let made = create_lines-ok prepare (filtered selected ls) hs in
          (λ empty. ground arith, hs, ground arith)
    ],
    λ (some_selected, hs, e).
        let made = create_lines-ok prepare (filtered selected ls) hs in
        rw e (go (filtered selected ls) some_selected made),
  )
    where
      go :
          (xs : List (ReturnLine L))
          → xs ≢ []
          → create_lines prepare xs ≡ ok (map prepare xs)
          → (raise_if (not (is_nonempty xs)) nothing_selected
              >> (create_lines prepare xs >>= λ vs.
                  (raise_if (not (is_nonempty vs)) no_quantity >> ok vs)))
            ≡ ok (map prepare xs)
      go [] h made = absurd (h refl)
      go (x ∷ xs) h made = rw made refl

  total_remaining_loop_lem :
      (acc : ℤ) (ls : List (ReturnLine L))
      → total_remaining_loop acc ls ≡ acc +ℤ total (λ l. l.remaining_qty) (filtered selected ls)
  unfolding total_remaining_loop
  total_remaining_loop_lem acc [] = omega int_laws
  total_remaining_loop_lem acc (l ∷ ls) = elim (Bool-cases l.is_selected) [
    | inl chosen ↦
        rw (chosen, total_remaining_loop_lem (acc +ℤ l.remaining_qty) ls) (omega int_laws)
    | inr left ↦ rw (left, total_remaining_loop_lem acc ls) refl
  ]

  -- The total that the wizard shows is the sum of what remains on the selected lines.
  pub compute_total_remaining_qty_lem :
      (ls : List (ReturnLine L))
      → compute_total_remaining_qty ls ≡ total (λ l. l.remaining_qty) (filtered selected ls)
  unfolding compute_total_remaining_qty
  compute_total_remaining_qty_lem ls = rw (total_remaining_loop_lem (pos 0) ls) (omega int_laws)
