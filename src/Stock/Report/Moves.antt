-- ===== src/Stock/Report/Moves.antt =====
-- What one move adds to the columns of the report, by its date.
use hai_compnay.Common.{
  ℕ, List, [], ◌∷◌, ◌≡◌, refl, sym, subst, ◌∙◌, arith, some, Bool, true, false, Bool-cases, inl,
  inr, ◌⊎◌, not, if◌then◌else◌, filtered, ltb, leb, ◌==◌, ◌&&◌, ◌||◌, All, ◌≤◌, nat_key,
}
use hai_compnay.Common.Int.{ℤ, pos, ◌+ℤ◌, ◌-ℤ◌, total, int_laws}
use hai_compnay.Common.Dict.Group.{get_or-accumulate}
use hai_compnay.Stock.Report.{
  StockMove, Tables, Wizard, mem, product_of_move, quantity_in_of, quantity_out_of, when_done,
  after_end, in_period, is_moved, stock_move_quantity, coalesce,
}

-- The moves that count for the stock of a product in the company.
abbrev pub counts : Wizard → ℕ → StockMove → Bool
counts w product m = (m.company_id == w.company_id) && (m.product_id == product)

-- What a move adds to the locations' stock.
abbrev pub net : List ℕ → StockMove → ℤ
net locations m = quantity_in_of locations m -ℤ quantity_out_of locations m

total-filtered :
    {A : Type 0} (f : A → ℤ) (p : A → Bool) (xs : List A)
    → total f (filtered p xs) ≡ total (λ x. if p x then f x else pos 0) xs
total-filtered f p [] = refl
total-filtered f p (x ∷ xs) = elim (Bool-cases (p x)) [
  | inl kept ↦ rw (kept, total-filtered f p xs) refl
  | inr gone ↦ rw (gone, total-filtered f p xs) (omega int_laws)
]

-- What such moves of a product brought, or took, in all.
abbrev pub moved : Wizard → List ℕ → (ℕ → Bool) → (StockMove → ℤ) → ℕ → StockMove → ℤ
moved w locations test quantity product m =
    if is_moved w locations test m
    then (if m.product_id == product then quantity m else pos 0)
    else pos 0

pub coalesce-stock_move_quantity :
    (t : Tables) (w : Wizard) (locations : List ℕ) (test : ℕ → Bool) (quantity : StockMove → ℤ)
    (product : ℕ)
    → coalesce product (stock_move_quantity t w locations test quantity)
      ≡ total (moved w locations test quantity product) t.stock_move
unfolding stock_move_quantity
coalesce-stock_move_quantity t w locations test quantity product =
    let rows = filtered (is_moved w locations test) t.stock_move in
    get_or-accumulate product_of_move quantity product [] rows
    ∙ rw
        (
          total-filtered quantity (λ m. m.product_id == product) rows,
          total-filtered (λ m. if m.product_id == product then quantity m else pos 0)
              (is_moved w locations test) t.stock_move,
        )
        (omega int_laws)

-- What a move of the product gives, if its date passes the test: the query's test on locations
-- takes nothing away.
abbrev part : Wizard → ℕ → (ℕ → Bool) → StockMove → ℤ → ℤ
part w product test m quantity =
    if counts w product m && when_done test m.date_done then quantity else pos 0

redundant_test :
    (company product test out in_ : Bool) (q : ℤ)
    → ((if company && test && (out || in_)
          then (if product then (if in_ then q else pos 0) else pos 0)
          else pos 0)
        ≡ (if company && product && test then (if in_ then q else pos 0) else pos 0))
      × ((if company && test && (out || in_)
            then (if product then (if out then q else pos 0) else pos 0)
            else pos 0)
          ≡ (if company && product && test then (if out then q else pos 0) else pos 0))
redundant_test company product test out in_ q = ground arith

pub moved-part :
    (w : Wizard) (locations : List ℕ) (test : ℕ → Bool) (product : ℕ) (m : StockMove)
    → (moved w locations test (quantity_in_of locations) product m
        ≡ part w product test m (quantity_in_of locations m))
      × (moved w locations test (quantity_out_of locations) product m
          ≡ part w product test m (quantity_out_of locations m))
moved-part w locations test product m =
    redundant_test (m.company_id == w.company_id) (m.product_id == product)
      (when_done test m.date_done) (mem m.location_id locations) (mem m.location_dest_id locations)
      m.quantity

-- The move is one of the company, from or to one of the locations.
abbrev pub touches : Wizard → List ℕ → StockMove → Bool
touches w locations m =
    (m.company_id == w.company_id)
    && (mem m.location_id locations || mem m.location_dest_id locations)

-- Such a move has a date, which is not after today's beginning.
abbrev pub IsDated : Wizard → List ℕ → StockMove → Type 0
IsDated w locations m =
    touches w locations m ≡ true → (d : ℕ) × (m.date_done ≡ some d) × (d ≤ w.today)

abbrev pub before : ℕ → ℕ → Bool
before date d = ltb d date

abbrev pub until : ℕ → ℕ → Bool
until date d = leb d date

-- How the dates' tests split the moves that have a date.
abbrev IsSplit : Bool → Bool → Bool → Bool → Type 0
IsSplit late until_ period before_ =
    (late ≡ not until_) × (until_ ≡ (period || before_)) × ((period && before_) ≡ false)

dated-IsSplit :
    (w : Wizard) (d : ℕ)
    → w.start_date ≤ w.end_date
    → d ≤ w.today
    → IsSplit (after_end w d) (until w.end_date d) (in_period w d) (before w.start_date d)
dated-IsSplit w d h today = (ground arith, ground arith, ground arith)

sel_zero : (b : Bool) → (if b then pos 0 else pos 0) ≡ pos 0
sel_zero true = refl
sel_zero false = refl

zero_sub : pos 0 -ℤ pos 0 ≡ pos 0
zero_sub = omega int_laws

abbrev pub sel : Bool → Bool → ℤ → ℤ
sel counts test q = if counts && test then q else pos 0

-- One move's part of the end quantity, and of the start quantity.
abbrev pub IsSplitLevel : Bool → Bool → Bool → Bool → Bool → ℤ → ℤ → Type 0
IsSplitLevel counts late until_ period before_ qin qout =
    ((if counts then qin -ℤ qout else pos 0) -ℤ sel counts late qin +ℤ sel counts late qout
      ≡ sel counts until_ (qin -ℤ qout))
    × (sel counts until_ (qin -ℤ qout) -ℤ sel counts period qin +ℤ sel counts period qout
        ≡ sel counts before_ (qin -ℤ qout))

exact_levels :
    (counts period before_ : Bool) (qin qout : ℤ)
    → (period && before_) ≡ false
    → IsSplitLevel counts (not (period || before_)) (period || before_) period before_ qin qout
exact_levels false period before_ qin qout h = (omega int_laws, omega int_laws)
exact_levels true true true qin qout h = cc
exact_levels true true false qin qout h = (omega int_laws, omega int_laws)
exact_levels true false true qin qout h = (omega int_laws, omega int_laws)
exact_levels true false false qin qout h = (omega int_laws, omega int_laws)

split_levels :
    (counts late until_ period before_ : Bool) (qin qout : ℤ)
    → IsSplit late until_ period before_ ⊎ ((qin ≡ pos 0) × (qout ≡ pos 0))
    → IsSplitLevel counts late until_ period before_ qin qout
split_levels counts late until_ period before_ qin qout (inl (l, u, h)) =
    rw (l, u) (exact_levels counts period before_ qin qout h)
split_levels counts late until_ period before_ qin qout (inr (a, b)) =
    rw
      (
        a,
        b,
        zero_sub,
        sel_zero counts,
        sel_zero (counts && late),
        sel_zero (counts && until_),
        sel_zero (counts && period),
        sel_zero (counts && before_),
      )
      (omega int_laws, omega int_laws)

apart_levels :
    (counts late until_ period before_ : Bool) (qin qout : ℤ)
    → (counts ≡ false) ⊎ ((qin ≡ pos 0) × (qout ≡ pos 0))
    → IsSplitLevel counts late until_ period before_ qin qout
apart_levels counts late until_ period before_ qin qout (inl h) =
    rw h (omega int_laws, omega int_laws)
apart_levels counts late until_ period before_ qin qout (inr h) =
    split_levels counts late until_ period before_ qin qout (inr h)

apart_zero :
    (company product out in_ : Bool) (q : ℤ)
    → (company && (out || in_)) ≡ false
    → ((company && product) ≡ false)
      ⊎ (((if in_ then q else pos 0) ≡ pos 0) × ((if out then q else pos 0) ≡ pos 0))
apart_zero false product out in_ q h = inl refl
apart_zero true product true in_ q h = cc
apart_zero true product false true q h = cc
apart_zero true product false false q h = inr (refl, refl)

pub move_levels :
    (w : Wizard) (locations : List ℕ) (product : ℕ) (m : StockMove)
    → w.start_date ≤ w.end_date
    → IsDated w locations m
    → IsSplitLevel
        (counts w product m)
        (when_done (after_end w) m.date_done)
        (when_done (until w.end_date) m.date_done)
        (when_done (in_period w) m.date_done)
        (when_done (before w.start_date) m.date_done)
        (quantity_in_of locations m)
        (quantity_out_of locations m)
move_levels w locations product m h dated = elim (Bool-cases (touches w locations m)) [
  | inl touched ↦
      let (d, e, today) = dated touched in
      let split =
        subst
          (λ o.
            IsSplit (when_done (after_end w) o) (when_done (until w.end_date) o)
              (when_done (in_period w) o) (when_done (before w.start_date) o))
          (sym e) (dated-IsSplit w d h today) in
      split_levels (counts w product m) (when_done (after_end w) m.date_done)
        (when_done (until w.end_date) m.date_done) (when_done (in_period w) m.date_done)
        (when_done (before w.start_date) m.date_done) (quantity_in_of locations m)
        (quantity_out_of locations m) (inl split)
  | inr apart ↦
      apart_levels (counts w product m) (when_done (after_end w) m.date_done)
        (when_done (until w.end_date) m.date_done) (when_done (in_period w) m.date_done)
        (when_done (before w.start_date) m.date_done) (quantity_in_of locations m)
        (quantity_out_of locations m)
        (apart_zero (m.company_id == w.company_id) (m.product_id == product)
          (mem m.location_id locations) (mem m.location_dest_id locations) m.quantity apart)
]

add_levels :
    (a b c d a' b' c' d' : ℤ)
    → a -ℤ b +ℤ c ≡ d
    → a' -ℤ b' +ℤ c' ≡ d'
    → a +ℤ a' -ℤ (b +ℤ b') +ℤ (c +ℤ c') ≡ d +ℤ d'
add_levels a b c d a' b' c' d' e e' = rw (← e, ← e') (omega int_laws)

-- The moves' parts add up in all as they do for every move.
pub total_levels :
    (c late until_ period before_ : StockMove → Bool) (qin qout : StockMove → ℤ)
    (ms : List StockMove)
    → All (λ m. IsSplitLevel (c m) (late m) (until_ m) (period m) (before_ m) (qin m) (qout m)) ms
    → (total (λ m. if c m then qin m -ℤ qout m else pos 0) ms
          -ℤ total (λ m. sel (c m) (late m) (qin m)) ms
          +ℤ total (λ m. sel (c m) (late m) (qout m)) ms
        ≡ total (λ m. sel (c m) (until_ m) (qin m -ℤ qout m)) ms)
      × (total (λ m. sel (c m) (until_ m) (qin m -ℤ qout m)) ms
            -ℤ total (λ m. sel (c m) (period m) (qin m)) ms
            +ℤ total (λ m. sel (c m) (period m) (qout m)) ms
          ≡ total (λ m. sel (c m) (before_ m) (qin m -ℤ qout m)) ms)
total_levels c late until_ period before_ qin qout [] hs = (omega int_laws, omega int_laws)
total_levels c late until_ period before_ qin qout (m ∷ ms) ((e, s), hs) =
    let (es, ss) = total_levels c late until_ period before_ qin qout ms hs in
    (add_levels _ _ _ _ _ _ _ _ e es, add_levels _ _ _ _ _ _ _ _ s ss)
