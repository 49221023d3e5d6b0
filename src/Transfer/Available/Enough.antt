-- ===== src/Transfer/Available/Enough.antt =====
-- The checks against the stock pass exactly when there is enough of every product.
use hai_compnay.Common.{
  ◌≢◌, ℕ, List, [], ◌∷◌, map, ◌≡◌, refl, ◌↔◌, ◌∙◌, sym, ap, inl, inr, none, some, Bool, true, false,
  ok, arith, filtered, is_nonempty, All, nat_key, Option-cases,
}
use hai_compnay.Common.Int.{ℤ, pos, ◌≤ℤ◌, total, int_laws}
use hai_compnay.Common.Dict.{Dict, lookup, get_or, IsDict}
use hai_compnay.Common.Dict.Group.{
  accumulate, having, accumulate-IsDict, get_or-accumulate, lookup-accumulate-none,
  lookup-accumulate_absent, total-accumulate,
}
use hai_compnay.Transfer.Model.{Request, Picking, Env}
use hai_compnay.Transfer.Available.{
  product_of_line, request_qty_of, get_product_request_total_qty, product_of_move, quantity_of_move,
  get_product_export_total_qty, is_short, is_short_or_negative, product_of,
  validate_request_available_qty, validate_picking_available_qty,
}

-- What the lines of a product ask for, added up.
abbrev pub asked_for : ℕ → Request → ℤ
asked_for product r = total request_qty_of (having product_of_line product r.request_line_ids)

-- Each product has one entry, which is the sum of the quantities of the lines that ask for it, and
-- the entries together are the sum over all lines.
pub get_product_request_total_qty_lem :
    (r : Request)
    → let quantities = get_product_request_total_qty r in
      IsDict quantities
      × ((product : ℕ) → get_or (lookup product quantities) (pos 0) ≡ asked_for product r)
      × (total (λ e. e.1) quantities ≡ total request_qty_of r.request_line_ids)
unfolding get_product_request_total_qty
get_product_request_total_qty_lem r = (
  accumulate-IsDict product_of_line request_qty_of [] r.request_line_ids tt,
  λ product.
      get_or-accumulate product_of_line request_qty_of product [] r.request_line_ids
      ∙ omega int_laws,
  total-accumulate product_of_line request_qty_of [] r.request_line_ids ∙ omega int_laws,
)

-- A product that a line asks for has the sum of what its lines ask for as its entry; no other product
-- has an entry.
pub get_product_request_total_qty_entries :
    (r : Request)
    → let quantities = get_product_request_total_qty r in
      IsDict quantities
      × ((product : ℕ)
          → having product_of_line product r.request_line_ids ≢ []
          → lookup product quantities ≡ some (asked_for product r))
      × ((product : ℕ)
          → having product_of_line product r.request_line_ids ≡ []
          → lookup product quantities ≡ none)
unfolding get_product_request_total_qty
get_product_request_total_qty_entries r =
    let lines = r.request_line_ids in
    (
      accumulate-IsDict product_of_line request_qty_of [] lines tt,
      λ product asked.
          elim (Option-cases
            (lookup product (accumulate product_of_line request_qty_of [] lines))) [
              | inl missing ↦ absurd (
                  asked
                    (lookup-accumulate-none product_of_line request_qty_of product [] lines
                      missing).1)
              | inr (v, found) ↦
                  let sum = get_or-accumulate product_of_line request_qty_of product [] lines in
                  found ∙ ap some (ap (λ o. get_or o (pos 0)) (sym found) ∙ sum ∙ omega int_laws)
            ],
      λ product none_.
          lookup-accumulate_absent product_of_line request_qty_of product [] lines none_,
    )

refused_iff :
    (short : ℕ × ℤ → Bool) (d : Dict ℕ ℤ)
    → (is_nonempty (map product_of (filtered short d)) ≡ false) ↔ All (λ e. short e ≡ false) d
refused_iff short [] = (λ h. tt, λ h. refl)
refused_iff short (e ∷ d) = ground (arith, refused_iff short d)

-- What a test on the entries of a dict says of every key that it holds.
All→lookup :
    (short : ℕ × ℤ → Bool) (d : Dict ℕ ℤ) (k : ℕ) (v : ℤ)
    → All (λ e. short e ≡ false) d
    → lookup k d ≡ some v
    → short (k, v) ≡ false
All→lookup short [] k v h e = cc
All→lookup short ((j, w) ∷ d) k v (h, hs) e = ground (arith, All→lookup short d k v hs)

lookup→All :
    (short : ℕ × ℤ → Bool) (d : Dict ℕ ℤ)
    → IsDict d
    → ((k : ℕ) (v : ℤ) → lookup k d ≡ some v → short (k, v) ≡ false)
    → All (λ e. short e ≡ false) d
lookup→All short [] h test = tt
lookup→All short ((j, w) ∷ d) (fresh, h) test =
    (test j w (ground arith), lookup→All short d h (λ k v e. test k v (ground arith)))

-- A test on the sums by product is a test on every product that an element has.
module _ {A : Type 0} (key : A → ℕ) (val : A → ℤ) (short : ℕ × ℤ → Bool) (xs : List A) where
  abbrev Passes : Type 0
  Passes =
      (product : ℕ)
      → having key product xs ≢ []
      → short (product, total val (having key product xs)) ≡ false

  entry_lem :
      (k : ℕ) {v : ℤ}
      → lookup k (accumulate key val [] xs) ≡ some v
      → v ≡ total val (having key k xs)
  entry_lem k e =
      ap (λ o. get_or o (pos 0)) (sym e) ∙ get_or-accumulate key val k [] xs ∙ omega int_laws

  passes_iff :
      (is_nonempty (map product_of (filtered short (accumulate key val [] xs))) ≡ false) ↔ Passes
  passes_iff = (
    λ passed product asked. elim (Option-cases (lookup product (accumulate key val [] xs))) [
      | inl missing ↦ absurd (asked (lookup-accumulate-none key val product [] xs missing).1)
      | inr (v, found) ↦ rw (← entry_lem product found) (
          All→lookup short (accumulate key val [] xs) product v ((refused_iff short _).0 passed)
            found)
    ],
    λ passes. (refused_iff short _).1 (
        lookup→All short (accumulate key val [] xs) (accumulate-IsDict key val [] xs tt)
          λ k v found.
            rw (entry_lem k found)
              (passes k (λ empty. cc (found, lookup-accumulate_absent key val k [] xs empty)))),
  )

-- The stock check of a request passes exactly when the source warehouse has, of every product that
-- a line asks for, as much as all lines ask for together.
pub validate_request_available_qty_iff :
    (env : Env) (warehouse : ℕ) (r : Request)
    → (validate_request_available_qty env warehouse (get_product_request_total_qty r) ≡ ok tt) ↔ (
        (product : ℕ)
        → having product_of_line product r.request_line_ids ≢ []
        → asked_for product r ≤ℤ env.qty_available warehouse product)
unfolding validate_request_available_qty get_product_request_total_qty
validate_request_available_qty_iff env warehouse r =
    let passes =
      passes_iff product_of_line request_qty_of (is_short env warehouse) r.request_line_ids in
    (
      λ h product asked. let fits = passes.0 (ground arith) product asked in ground arith,
      λ fits.
          let passed = passes.1 (λ product asked. let fit = fits product asked in ground arith) in
          rw passed refl,
    )

-- The stock check of a picking passes exactly when, of every product that it moves, the source
-- warehouse has no negative quantity if the product is tracked, and otherwise at least what the
-- picking moves.
pub validate_picking_available_qty_iff :
    (env : Env) (warehouse : ℕ) (p : Picking)
    → (validate_picking_available_qty env warehouse (get_product_export_total_qty p) ≡ ok tt) ↔ (
        (product : ℕ)
        → having product_of_move product p.move_ids ≢ []
        → let available = env.qty_available warehouse product in
          (env.is_tracked product ≡ true → pos 0 ≤ℤ available)
          × (env.is_tracked product ≡ false
              → total quantity_of_move (having product_of_move product p.move_ids) ≤ℤ available))
unfolding validate_picking_available_qty get_product_export_total_qty
validate_picking_available_qty_iff env warehouse p =
    let passes =
      passes_iff product_of_move quantity_of_move (is_short_or_negative env warehouse) p.move_ids in
    (
      λ h product moved. let fits = passes.0 (ground arith) product moved in ground arith,
      λ fits.
          let passed = passes.1 (λ product moved. let fit = fits product moved in ground arith) in
          rw passed refl,
    )
