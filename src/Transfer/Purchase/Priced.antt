-- ===== src/Transfer/Purchase/Priced.antt =====
-- Which orders are made, and with which lines.
use mathlib.Core.Option.{some-injective}
use hai_compnay.Common.{
  ℕ, List, [], ◌∷◌, map, ◌≡◌, ◌≢◌, refl, sym, ap, subst, ◌∙◌, Option, none, some, Option-cases,
  Bool, true, false, inl, inr, ◌⊎◌, ok, err, ◌>>◌, raise_if, is_nonempty, filtered, All, All₂, ◌&&◌,
  bind-Returns, ok-injective, nat_key,
}
use hai_compnay.Common.Int.{ℤ, pos, ◌≤ℤ◌}
use hai_compnay.Common.Dict.{Dict, lookup, IsDict}
use hai_compnay.Common.Dict.Group.{having}
use hai_compnay.Transfer.Model.{Request, Env, no_price}
use hai_compnay.Transfer.Status.{is_missing}
use hai_compnay.Transfer.Available.{
  product_of_line, product_of, get_product_request_total_qty, validate_request_available_qty,
}
use hai_compnay.Transfer.Available.Enough.{
  asked_for, validate_request_available_qty_iff, get_product_request_total_qty_entries,
}
use hai_compnay.Transfer.Purchase.{
  OrderLine, Market, PurchaseVals, order_lines_loop, prepare_order_lines, seller_line,
  prepare_purchase_order_line, prepare_purchase_order_values, create_purchase_order_inter_company,
}

abbrev pub is_none : Option OrderLine → Bool
is_none none = true
is_none (some line) = false

nonempty-≢ : {A : Type 0} (xs : List A) → is_nonempty xs ≡ false → xs ≡ []
nonempty-≢ [] h = refl
nonempty-≢ (x ∷ xs) h = cc

module _ (line_of : ℕ × ℤ → Option OrderLine) where
  -- The products without a price, in order.
  abbrev pub unpriced : Dict ℕ ℤ → List ℕ
  unpriced quantities = map product_of (filtered (λ q. is_none (line_of q)) quantities)

  loop_errors :
      (quantities : Dict ℕ ℤ) → (order_lines_loop line_of quantities).1 ≡ unpriced quantities
  unfolding order_lines_loop
  loop_errors [] = refl
  loop_errors ((product, qty) ∷ quantities) = elim (Option-cases (line_of (product, qty))) [
    | inl e ↦ rw (e, loop_errors quantities) refl
    | inr (line, e) ↦ rw (e, loop_errors quantities) refl
  ]

  loop_lines :
      (quantities : Dict ℕ ℤ)
      → unpriced quantities ≡ []
      → All₂ (λ q line. line_of q ≡ some line) quantities (order_lines_loop line_of quantities).0
  unfolding order_lines_loop
  loop_lines [] h = tt
  loop_lines ((product, qty) ∷ quantities) h = elim (Option-cases (line_of (product, qty))) [
    | inl e ↦ absurd (cons_nil (rw e at h))
    | inr (line, e) ↦ rw e (e, loop_lines quantities (rw e at h))
  ]
    where
      cons_nil : {x : ℕ} {xs : List ℕ} → x ∷ xs ≡ [] → ⊥
      cons_nil h = cc

  -- The lines of a purchase order, from what each product is bought for: either every product has a
  -- price, and the lines are those of the products, in order; or the call raises, and its error names
  -- exactly the products without a price, of which there is one at least.
  pub prepare_order_lines_lem :
      (quantities : Dict ℕ ℤ)
      → ((lines : List OrderLine) × (prepare_order_lines line_of quantities ≡ ok lines)
          × All₂ (λ q line. line_of q ≡ some line) quantities lines)
        ⊎ ((prepare_order_lines line_of quantities ≡ err (no_price (unpriced quantities)))
            × (unpriced quantities ≢ []))
  unfolding prepare_order_lines
  prepare_order_lines_lem quantities =
      rw (loop_errors quantities)
        (go (unpriced quantities) (order_lines_loop line_of quantities).0 (loop_lines quantities))
    where
      go :
          (bad : List ℕ) (made : List OrderLine)
          → (bad ≡ [] → All₂ (λ q line. line_of q ≡ some line) quantities made)
          → ((lines : List OrderLine) × ((raise_if (is_nonempty bad) (no_price bad) >> ok made)
                ≡ ok lines)
              × All₂ (λ q line. line_of q ≡ some line) quantities lines)
            ⊎ (((raise_if (is_nonempty bad) (no_price bad) >> ok made) ≡ err (no_price bad))
                × (bad ≢ []))
      go [] made h = inl (made, refl, h refl)
      go (x ∷ xs) made h = inr (refl, λ e. cc)

-- What an order buys: the products of its lines, with their quantities.
abbrev pub bought_of : PurchaseVals → Dict ℕ ℤ
bought_of vals = map (λ line. (line.product_id, line.product_qty)) vals.order_line

-- The unit price of the line is what the seller asks for the quantity on it.
abbrev pub IsPriced : Market → OrderLine → Type 0
IsPriced market line =
    (price : ℤ) × (market.select_seller line.product_id line.product_qty ≡ some price)
    × (line.price_unit.numerator ≡ price)
    × (line.price_unit.denominator ≡ pos 1)

seller_line-IsPriced :
    (market : Market) (product : ℕ) (qty : ℤ) (line : OrderLine)
    → seller_line market (product, qty) ≡ some line
    → (line.product_id ≡ product) × (line.product_qty ≡ qty) × IsPriced market line
seller_line-IsPriced market product qty line e =
    elim (Option-cases (market.select_seller product qty)) [
      | inl none_ ↦ absurd (no_line (rw (none_, seller_line) at e))
      | inr (price, found) ↦
          subst (λ l. (l.product_id ≡ product) × (l.product_qty ≡ qty) × IsPriced market l)
            (some-injective _ _ (rw (found, seller_line) at e))
            (refl, refl, (price, found, refl, refl))
    ]
  where
    no_line : {l : OrderLine} → none ≡ some l → ⊥
    no_line h = cc

lines_lem :
    (market : Market) (quantities : Dict ℕ ℤ) (lines : List OrderLine)
    → All₂ (λ q line. seller_line market q ≡ some line) quantities lines
    → (map (λ line. (line.product_id, line.product_qty)) lines ≡ quantities)
      × All (IsPriced market) lines
lines_lem market [] [] h = (refl, tt)
lines_lem market [] (line ∷ lines) h = elim h [ ]
lines_lem market (q ∷ quantities) [] h = elim h [ ]
lines_lem market ((product, qty) ∷ quantities) (line ∷ lines) (h, hs) =
    let (p, q, priced) = seller_line-IsPriced market product qty line h in
    let (same, all_priced) = lines_lem market quantities lines hs in
    (rw (p, q, same) refl, (priced, all_priced))

-- If the request's call makes an order, then the source warehouse has, of every product that a line
-- asks for, as much as all lines ask for together; the order has one line for each of these products
-- and for no other, with that quantity; and the unit price of each is the seller's for that quantity.
pub create_purchase_order_inter_company_lem :
    (env : Env) (market : Market) (source_warehouse : ℕ) (r : Request) (vals : PurchaseVals)
    → create_purchase_order_inter_company env market source_warehouse r ≡ ok vals
    → ((product : ℕ)
        → having product_of_line product r.request_line_ids ≢ []
        → (asked_for product r ≤ℤ env.qty_available source_warehouse product)
          × (lookup product (bought_of vals) ≡ some (asked_for product r)))
      × ((product : ℕ)
          → having product_of_line product r.request_line_ids ≡ []
          → lookup product (bought_of vals) ≡ none)
      × IsDict (bought_of vals)
      × All (IsPriced market) vals.order_line
unfolding create_purchase_order_inter_company prepare_purchase_order_values
    prepare_purchase_order_line
create_purchase_order_inter_company_lem env market source_warehouse r vals made =
    let quantities = get_product_request_total_qty r in
    let (checked, valid, rest) =
      bind-Returns (validate_request_available_qty env source_warehouse quantities) _ made in
    let (lines, lined, built) =
      bind-Returns (prepare_purchase_order_line market quantities) _ rest in
    let (dated, now, priced) =
      bind-Returns (raise_if (is_nonempty quantities && is_missing market.request_date) _) _
        lined in
    let lines_eq : lines ≡ vals.order_line = ap (λ v. v.order_line) (ok-injective built) in
    let each : All₂ (λ q line. seller_line market q ≡ some line) quantities vals.order_line =
      elim (prepare_order_lines_lem (seller_line market) quantities) [
        | inl (lines', made', priced') ↦
            subst (All₂ (λ q line. seller_line market q ≡ some line) quantities)
              (ok-injective (sym made' ∙ priced) ∙ lines_eq) priced'
        | inr (failed, some_) ↦ cc
      ] in
    let (same, all_priced) = lines_lem market quantities vals.order_line each in
    let (dict, present, absent) = get_product_request_total_qty_entries r in
    (
      λ product asked. (
        (validate_request_available_qty_iff env source_warehouse r).0 valid product asked,
        ap (lookup product) same ∙ present product asked,
      ),
      λ product none_. ap (lookup product) same ∙ absent product none_,
      subst IsDict (sym same) dict,
      all_priced,
    )
