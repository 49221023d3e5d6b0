-- ===== src/Transfer/Incoming/Destination.antt =====
-- The one destination of the lines of a picking's moves.
use hai_compnay.Common.{
  ℕ, List, [], ◌∷◌, ◌++◌, map, Option, none, some, ◌≡◌, refl, arith, ok, All, ok-injective,
  filtered, Bool-cases, inl, inr, true, any, ◌==◌, if◌then◌else◌, Result, err,
}
use hai_compnay.Transfer.Model.{StockMove, RequestLine, Request, Env, Error}
use hai_compnay.Transfer.Incoming.{dest_of_line, add_new, dest_locations, single}

-- The location is the stock of the destination of each of these lines.
abbrev pub EndsAt : Env → ℕ → List RequestLine → Type 0
EndsAt env location = All (λ line. env.lot_stock_id line.dest_warehouse_id ≡ location)

-- The lines of a request that a move is for.
abbrev pub lines_of : Request → StockMove → List RequestLine
lines_of r move = go move.x_transfer_request_line_id
  where
    go : Option ℕ → List RequestLine
    go none = []
    go (some i) = filtered (λ line. line.id == i) r.request_line_ids

-- What is known stays known, and what is added is then known.
abbrev Known : ℕ → List ℕ → Type 0
Known x known = any (◌==◌ x) known ≡ true

Known-append : (x : ℕ) (known rest : List ℕ) → Known x known → Known x (known ++ rest)
Known-append x [] rest h = cc
Known-append x (y ∷ ys) rest h = elim (Bool-cases (x == y)) [
  | inl same ↦ rw same refl
  | inr other ↦ rw other (Known-append x ys rest (rw other at h))
]

Known-last : (x : ℕ) (known : List ℕ) → Known x (known ++ x ∷ [])
Known-last x [] = ground arith
Known-last x (y ∷ ys) = elim (Bool-cases (x == y)) [
  | inl same ↦ rw same refl
  | inr other ↦ rw other (Known-last x ys)
]

abbrev grown : ℕ → List ℕ → List ℕ
grown y known = if any (◌==◌ y) known then known else known ++ y ∷ []

grown-Known : (x y : ℕ) (known : List ℕ) → Known x known → Known x (grown y known)
grown-Known x y known h = elim (Bool-cases (any (◌==◌ y) known)) [
  | inl old ↦ rw old h
  | inr fresh ↦ rw fresh (Known-append x known (y ∷ []) h)
]

grown_self : (y : ℕ) (known : List ℕ) → Known y (grown y known)
grown_self y known = elim (Bool-cases (any (◌==◌ y) known)) [
  | inl old ↦ rw old old
  | inr fresh ↦ rw fresh (Known-last y known)
]

add_new-Known :
    (xs : List ℕ) (known : List ℕ)
    → ((x : ℕ) → Known x known → Known x (add_new xs known))
      × All (λ x. Known x (add_new xs known)) xs
add_new-Known [] known = (λ x h. h, tt)
add_new-Known (y ∷ ys) known =
    let (kept, added) = add_new-Known ys (grown y known) in
    (λ x h. kept x (grown-Known x y known h), (kept y (grown_self y known), added))

-- Every destination of every move's lines is among those found.
pub dest_locations-Known :
    (env : Env) (r : Request) (moves : List StockMove) (known : List ℕ)
    → let found = dest_locations env r moves known in
      ((x : ℕ) → Known x known → Known x found)
      × All
          (λ move.
            All
              (λ x. Known x found)
              (dest_of_line env move.x_transfer_request_line_id r.request_line_ids))
          moves
dest_locations-Known env r [] known = (λ x h. h, tt)
dest_locations-Known env r (move ∷ moves) known =
    let now = dest_of_line env move.x_transfer_request_line_id r.request_line_ids in
    let (kept, added) = add_new-Known now known in
    let (further, rest) = dest_locations-Known env r moves (add_new now known) in
    (λ x h. further x (kept x h), (All-further now _ _ further added, rest))
  where
    All-further :
        (xs known' found : List ℕ)
        → ((x : ℕ) → Known x known' → Known x found)
        → All (λ x. Known x known') xs
        → All (λ x. Known x found) xs
    All-further [] known' found f h = tt
    All-further (x ∷ xs) known' found f (h, hs) = (f x h, All-further xs known' found f hs)

single-Known : (x l : ℕ) (found : List ℕ) → single found ≡ ok l → Known x found → x ≡ l
single-Known x l [] e h = cc
single-Known x l (y ∷ []) e h = let same : y ≡ l = ok-injective e in ground arith
single-Known x l (y ∷ z ∷ ys) e h = absurd (failed e)
  where
    failed : {e : Error} → ◌≡◌ {A = Result Error ℕ} (err e) (ok l) → ⊥
    failed h = cc

ends_at :
    (env : Env) (location : ℕ) (lines : List RequestLine)
    → All (λ x. x ≡ location) (map (λ line. env.lot_stock_id line.dest_warehouse_id) lines)
    → EndsAt env location lines
ends_at env location [] h = tt
ends_at env location (line ∷ lines) (h, hs) = (h, ends_at env location lines hs)

move-EndsAt :
    (env : Env) (r : Request) (l : ℕ) (move : StockMove) (found : List ℕ)
    → single found ≡ ok l
    → All (λ x. Known x found) (dest_of_line env move.x_transfer_request_line_id r.request_line_ids)
    → EndsAt env l (lines_of r move)
move-EndsAt env r l move found e h = go move.x_transfer_request_line_id h
  where
    all_same : (xs : List ℕ) → All (λ x. Known x found) xs → All (λ x. x ≡ l) xs
    all_same [] h = tt
    all_same (x ∷ xs) (h, hs) = (single-Known x l found e h, all_same xs hs)

    go :
        (i : Option ℕ)
        → All (λ x. Known x found) (dest_of_line env i r.request_line_ids)
        → EndsAt env l (lines_of r (record move { x_transfer_request_line_id = i }))
    go none h = tt
    go (some i) h =
        ends_at env l (filtered (λ line. line.id == i) r.request_line_ids) (all_same _ h)

pub moves-EndsAt :
    (env : Env) (r : Request) (l : ℕ) (moves : List StockMove) (found : List ℕ)
    → single found ≡ ok l
    → All
        (λ move.
          All
            (λ x. Known x found)
            (dest_of_line env move.x_transfer_request_line_id r.request_line_ids))
        moves
    → All (λ move. EndsAt env l (lines_of r move)) moves
moves-EndsAt env r l [] found e h = tt
moves-EndsAt env r l (move ∷ moves) found e (h, hs) =
    (move-EndsAt env r l move found e h, moves-EndsAt env r l moves found e hs)
