-- ===== src/Transfer/Lots/Paired.antt =====
-- Every line gets the lot of the line in its place.
use hai_compnay.Common.{
  ℕ, List, [], ◌∷◌, ◌++◌, ◌≡◌, ◌≢◌, refl, sym, ap, subst, ◌∙◌, arith, ==_self, Option, none, some,
  true, false, Bool-cases, inl, inr, if◌then◌else◌, ◌==◌, All, All₂, nat_key,
}
use hai_compnay.Common.Dict.{Dict, lookup, modify, lookup-modify}
use hai_compnay.Transfer.Lots.{
  MoveLine, TrackedMove, current_move_line_map, is_set, current_lines, zip_lots, lots_loop,
  copy_lots,
}

-- The copy of a move stands for the same product, and has a line for each of its lines.
abbrev pub IsCopy : TrackedMove → TrackedMove → Type 0
IsCopy m c =
    (c.product_id ≡ m.product_id)
    × (is_set c.has_tracking ≡ is_set m.has_tracking)
    × All₂ (λ l k. Unit {0}) m.move_line_ids c.move_line_ids

-- The move is not one of the product, if its tracking is set.
abbrev pub IsOther : ℕ → TrackedMove → Type 0
IsOther product m = is_set m.has_tracking ≡ true → m.product_id ≢ product

-- No two moves whose tracking is set have the same product.
abbrev pub IsDistinct : List TrackedMove → Type 0
IsDistinct [] = Unit
IsDistinct (m ∷ ms) = (is_set m.has_tracking ≡ true → All (IsOther m.product_id) ms) × IsDistinct ms

-- The lots of a move's lines, for the lines in their places.
abbrev pub in_place : List MoveLine → List MoveLine → List (ℕ × Option ℕ)
in_place (l ∷ ls) (c ∷ cs) = (c.id, l.lot_id) ∷ in_place ls cs
in_place _ _ = []

-- The lots of all moves whose tracking is set, move by move.
abbrev pub paired : List TrackedMove → List TrackedMove → List (ℕ × Option ℕ)
paired (m ∷ ms) (c ∷ cs) =
    (if is_set m.has_tracking then in_place m.move_line_ids c.move_line_ids else []) ++ paired ms cs
paired _ _ = []

zip_lots-in_place :
    (ls cs : List MoveLine) → All₂ (λ l k. Unit {0}) ls cs → (zip_lots ls cs).0 ≡ in_place ls cs
zip_lots-in_place [] [] h = refl
zip_lots-in_place [] (c ∷ cs) h = refl
zip_lots-in_place (l ∷ ls) [] h = refl
zip_lots-in_place (l ∷ ls) (c ∷ cs) (u, h) =
    ap (λ ws. (c.id, l.lot_id) ∷ ws) (zip_lots-in_place ls cs h)

lookup_other :
    (j k : ℕ) (lines : List MoveLine) (d : Dict ℕ (List MoveLine))
    → k ≢ j
    → lookup j (modify k (λ _. lines) [] d) ≡ lookup j d
lookup_other j k lines d h =
    let other : (k == j) ≡ false = ground (arith, h) in
    rw (lookup-modify j k (λ _. lines) [] d, other) refl

lookup_same :
    (k : ℕ) (lines : List MoveLine) (d : Dict ℕ (List MoveLine))
    → lookup k (modify k (λ _. lines) [] d) ≡ some lines
lookup_same k lines d = rw (lookup-modify k k (λ _. lines) [] d, ==_self k) refl

-- The map holds what it held for a product that no further move has.
map_other :
    (product : ℕ) (d : Dict ℕ (List MoveLine)) (ms : List TrackedMove)
    → All (IsOther product) ms
    → lookup product (current_move_line_map d ms) ≡ lookup product d
unfolding current_move_line_map
map_other product d [] h = refl
map_other product d (m ∷ ms) (o, h) = elim (Bool-cases (is_set m.has_tracking)) [
  | inr untracked ↦ rw untracked (map_other product d ms h)
  | inl tracked ↦
      rw (tracked, map_other product (modify m.product_id (λ _. m.move_line_ids) [] d) ms h)
        (lookup_other product m.product_id m.move_line_ids d (o tracked))
]

-- The map holds the lines of every move whose tracking is set.
abbrev Holds : Dict ℕ (List MoveLine) → TrackedMove → Type 0
Holds d c = is_set c.has_tracking ≡ true → lookup c.product_id d ≡ some c.move_line_ids

map-Holds :
    (d : Dict ℕ (List MoveLine)) (cs : List TrackedMove)
    → IsDistinct cs
    → All (Holds (current_move_line_map d cs)) cs
unfolding current_move_line_map
map-Holds d [] h = tt
map-Holds d (c ∷ cs) (o, h) = (
  λ tracked.
      rw
        (
          tracked,
          map_other c.product_id (modify c.product_id (λ _. c.move_line_ids) [] d) cs (o tracked),
        )
        (lookup_same c.product_id c.move_line_ids d),
  map-Holds (if is_set c.has_tracking then modify c.product_id (λ _. c.move_line_ids) [] d else d)
      cs h,
)

-- Using up one product's iterator leaves the other products'.
modify-Holds :
    (product : ℕ) (left : List MoveLine) (d : Dict ℕ (List MoveLine)) (cs : List TrackedMove)
    → All (IsOther product) cs
    → All (Holds d) cs
    → All (Holds (modify product (λ _. left) [] d)) cs
modify-Holds product left d [] o h = tt
modify-Holds product left d (c ∷ cs) (o, os) (h, hs) = (
  λ tracked. lookup_other c.product_id product left d (λ e. o tracked (sym e)) ∙ h tracked,
  modify-Holds product left d cs os hs,
)

-- What the copies of the other moves are: others too.
IsCopy-IsOther :
    (product : ℕ) (ms cs : List TrackedMove)
    → All₂ IsCopy ms cs
    → All (IsOther product) ms
    → All (IsOther product) cs
IsCopy-IsOther product [] [] k h = tt
IsCopy-IsOther product [] (c ∷ cs) k h = elim k [ ]
IsCopy-IsOther product (m ∷ ms) [] k h = elim k [ ]
IsCopy-IsOther product (m ∷ ms) (c ∷ cs) ((p, t, l), ks) (h, hs) =
    (λ tracked e. h (sym t ∙ tracked) (sym p ∙ e), IsCopy-IsOther product ms cs ks hs)

IsCopy-IsDistinct : (ms cs : List TrackedMove) → All₂ IsCopy ms cs → IsDistinct ms → IsDistinct cs
IsCopy-IsDistinct [] [] k h = tt
IsCopy-IsDistinct [] (c ∷ cs) k h = elim k [ ]
IsCopy-IsDistinct (m ∷ ms) [] k h = elim k [ ]
IsCopy-IsDistinct (m ∷ ms) (c ∷ cs) ((p, t, l), ks) (h, hs) = (
  λ tracked.
      subst (λ q. All (IsOther q) cs) (sym p)
        (IsCopy-IsOther m.product_id ms cs ks (h (sym t ∙ tracked))),
  IsCopy-IsDistinct ms cs ks hs,
)

-- One round of the loop, for what it finds of the move's product.
abbrev round :
    Dict ℕ (List MoveLine)
    → TrackedMove
    → List TrackedMove
    → Option (List MoveLine)
    → List (ℕ × Option ℕ)
round d m ms none = lots_loop d ms
round d m ms (some current) =
    (zip_lots m.move_line_ids current).0
    ++ lots_loop (modify m.product_id (λ _. (zip_lots m.move_line_ids current).1) [] d) ms

lots_loop-round :
    (d : Dict ℕ (List MoveLine)) (m : TrackedMove) (ms : List TrackedMove)
    {found : Option (List MoveLine)}
    → current_lines d m ≡ found
    → lots_loop d (m ∷ ms) ≡ round d m ms found
unfolding lots_loop
lots_loop-round d m ms e = ap (round d m ms) e

lots_loop-paired :
    (d : Dict ℕ (List MoveLine)) (ms cs : List TrackedMove)
    → All₂ IsCopy ms cs
    → IsDistinct ms
    → All (Holds d) cs
    → lots_loop d ms ≡ paired ms cs
unfolding lots_loop
lots_loop-paired d [] [] k h held = refl
lots_loop-paired d [] (c ∷ cs) k h held = elim k [ ]
lots_loop-paired d (m ∷ ms) [] k h held = elim k [ ]
lots_loop-paired d (m ∷ ms) (c ∷ cs) ((p, t, l), ks) (h, hs) (now, held) =
    elim (Bool-cases (is_set m.has_tracking)) [
      | inr unset ↦
          let here : current_lines d m ≡ none =
            ap (λ b. if b then lookup m.product_id d else none) unset in
          rw (lots_loop-round d m ms here, unset) (lots_loop-paired d ms cs ks hs held)
      | inl tracked ↦
          let found : lookup m.product_id d ≡ some c.move_line_ids =
            subst (λ q. lookup q d ≡ some c.move_line_ids) p (now (t ∙ tracked)) in
          let here : current_lines d m ≡ some c.move_line_ids =
            ap (λ b. if b then lookup m.product_id d else none) tracked ∙ found in
          let left = (zip_lots m.move_line_ids c.move_line_ids).1 in
          let others = IsCopy-IsOther m.product_id ms cs ks (h tracked) in
          rw
            (
              lots_loop-round d m ms here,
              tracked,
              zip_lots-in_place m.move_line_ids c.move_line_ids l,
              lots_loop-paired (modify m.product_id (λ _. left) [] d) ms cs ks hs
                  (modify-Holds m.product_id left d cs others held),
            )
            refl
    ]

-- Where every move of the new picking is the copy of a move of the old one, with as many lines, and
-- no two moves whose tracking is set, be it to `none`, have the same product, the lines of the new
-- picking's moves of that kind get the lots of the lines in their places, and nothing else gets a lot.
pub copy_lots-paired :
    (ms cs : List TrackedMove)
    → All₂ IsCopy ms cs
    → IsDistinct ms
    → copy_lots true ms cs ≡ paired ms cs
unfolding copy_lots
copy_lots-paired ms cs k h =
    lots_loop-paired (current_move_line_map [] cs) ms cs k h
      (map-Holds [] cs (IsCopy-IsDistinct ms cs k h))
