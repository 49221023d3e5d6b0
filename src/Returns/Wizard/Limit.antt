-- ===== src/Returns/Wizard/Limit.antt =====
-- What the lines of a return wizard ask back of each order line, and that it is within what remains.
use hai_compnay.Common.{
  ℕ, List, [], ◌∷◌, ◌≡◌, ◌≢◌, refl, ap, subst, arith, Bool, true, false, filtered, All, All₂, ◌==◌,
  Bool-cases, inl, inr, if◌then◌else◌,
}
use hai_compnay.Common.Int.{ℤ, pos, ◌+ℤ◌, ◌-ℤ◌, ◌≤ℤ◌, total, int_laws}
use hai_compnay.Returns.Wizard.{ReturnLine}

-- An order line has an identifier, a done (delivered or received) and a returned quantity; `taken`
-- says which lines of the wizard become lines of an order.
module _ {L : Type 0} (id_of : L → ℕ) (done_of returned_of : L → ℤ)
    (taken : ReturnLine L → Bool) where
  -- The wizard line stands for this order line; quantity and selection are as the user left them.
  abbrev pub IsEdit : L → ReturnLine L → Type 0
  IsEdit line l = (l.order_line ≡ line) × (l.remaining_qty ≡ done_of line -ℤ returned_of line)

  abbrev pub IsDistinct : List L → Type 0
  IsDistinct [] = Unit
  IsDistinct (line ∷ lines) = All (λ other. id_of line ≢ id_of other) lines × IsDistinct lines

  abbrev pub IsWithin : ReturnLine L → Type 0
  IsWithin l = l.return_qty ≤ℤ l.remaining_qty

  -- What the taken lines ask back of order line `i`.
  abbrev pub asked : ℕ → List (ReturnLine L) → ℤ
  asked i ls =
      total (λ l. if id_of l.order_line == i then l.return_qty else pos 0) (filtered taken ls)

  -- Lines of other order lines ask nothing of this one.
  asked-other :
      (line : L) (lines : List L) (ls : List (ReturnLine L))
      → All₂ IsEdit lines ls
      → All (λ other. id_of line ≢ id_of other) lines
      → asked (id_of line) ls ≡ pos 0
  asked-other line [] [] e h = refl
  asked-other line [] (l ∷ ls) e h = absurd e
  asked-other line (m ∷ ms) [] e h = absurd e
  asked-other line (m ∷ ms) (l ∷ ls) (e, es) (h, hs) = elim (Bool-cases (taken l)) [
    | inr left ↦ rw left (asked-other line ms ls es hs)
    | inl kept ↦
        let other : (id_of l.order_line == id_of line) ≡ false = ground (arith, ap id_of e.0) in
        rw (kept, other, asked-other line ms ls es hs) (omega int_laws)
  ]

  abbrev pub FitsIn : List (ReturnLine L) → L → Type 0
  FitsIn ls line = asked (id_of line) ls ≤ℤ done_of line -ℤ returned_of line

  -- A wizard line of another order line changes nothing.
  FitsIn-cons :
      (m : L) (l : ReturnLine L) (ls : List (ReturnLine L)) (lines : List L)
      → IsEdit m l
      → All (λ other. id_of m ≢ id_of other) lines
      → All (FitsIn ls) lines
      → All (FitsIn (l ∷ ls)) lines
  FitsIn-cons m l ls [] e d h = tt
  FitsIn-cons m l ls (k ∷ ks) e (d, ds) (h, hs) = (head, FitsIn-cons m l ls ks e ds hs)
    where
      head : FitsIn (l ∷ ls) k
      head = elim (Bool-cases (taken l)) [
        | inr left ↦ rw left h
        | inl kept ↦
            let other : (id_of l.order_line == id_of k) ≡ false = ground (arith, ap id_of e.0) in
            rw (kept, other) (omega int_laws)
      ]

  FitsIn-head :
      (m : L) (l : ReturnLine L) (ls : List (ReturnLine L)) (lines : List L)
      → IsEdit m l
      → All₂ IsEdit lines ls
      → All (λ other. id_of m ≢ id_of other) lines
      → All IsWithin (filtered taken (l ∷ ls))
      → returned_of m ≤ℤ done_of m
      → FitsIn (l ∷ ls) m
  FitsIn-head m l ls lines e es d r h = elim (Bool-cases (taken l)) [
    | inr left ↦ rw (left, asked-other m lines ls es d) (omega int_laws)
    | inl kept ↦
        let same : (id_of l.order_line == id_of m) ≡ true = ground (arith, ap id_of e.0) in
        let fits : l.return_qty ≤ℤ l.remaining_qty = (rw kept at r).0 in
        let fits_m = subst (λ x. l.return_qty ≤ℤ x) e.1 fits in
        rw (kept, same, asked-other m lines ls es d) (omega (int_laws, fits_m))
  ]

  tail-IsWithin :
      (l : ReturnLine L) (ls : List (ReturnLine L))
      → All IsWithin (filtered taken (l ∷ ls))
      → All IsWithin (filtered taken ls)
  tail-IsWithin l ls r = ground arith

  -- Of every order line at most what remains is asked back.
  pub asked-le :
      (lines : List L) (ls : List (ReturnLine L))
      → IsDistinct lines
      → All₂ IsEdit lines ls
      → All IsWithin (filtered taken ls)
      → All (λ line. returned_of line ≤ℤ done_of line) lines
      → All (FitsIn ls) lines
  asked-le [] [] d e r h = tt
  asked-le [] (l ∷ ls) d e r h = tt
  asked-le (m ∷ ms) [] d e r h = absurd e
  asked-le (m ∷ ms) (l ∷ ls) (d, ds) (e, es) r (h, hs) = (
    FitsIn-head m l ls ms e es d r h,
    FitsIn-cons m l ls ms e d (asked-le ms ls ds es (tail-IsWithin l ls r) hs),
  )

  -- So with the returned quantities of before, nothing exceeds what was done.
  pub returned-le :
      (returned after : ℕ → ℤ) (lines : List L) (ls : List (ReturnLine L))
      → All (λ line. returned_of line ≡ returned (id_of line)) lines
      → ((i : ℕ) → after i ≡ returned i +ℤ asked i ls)
      → All (FitsIn ls) lines
      → All (λ line. after (id_of line) ≤ℤ done_of line) lines
  returned-le returned after [] ls u e f = tt
  returned-le returned after (m ∷ ms) ls (u, us) e (f, fs) =
      (rw (e (id_of m), ← u) (omega (int_laws, f)), returned-le returned after ms ls us e fs)
