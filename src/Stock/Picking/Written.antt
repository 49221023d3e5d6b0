-- ===== src/Stock/Picking/Written.antt =====
-- What the check lets through, and what becomes of the date of a done picking.
use hai_compnay.Common.{ℕ, List, [], ◌∷◌, ◌≡◌, Option, none, some, true, map, All₂}
use hai_compnay.Stock.Picking.{Move, Picking, Vals, vals_for, write}

-- The date a picking has after it is done: the one it had, or the given one.
abbrev pub IsDated : ℕ → Picking → Picking → Type 0
IsDated date before after = go before.date_done
  where
    go : Option ℕ → Type 0
    go none = after.date_done ≡ some date
    go (some old) = after.date_done ≡ some old

module _ {O : Type 0} (super : Vals O → Picking → Picking)
    (super_sets : (date : Option ℕ) (others : O) (picking : Picking)
      → (super (record { date_done = some date; others = others }) picking).date_done ≡ date)
    (super_keeps : (others : O) (picking : Picking)
      → (super (record { date_done = none; others = others }) picking).date_done
        ≡ picking.date_done) where
  one-IsDated :
      (date : ℕ) (others : O) (id : ℕ) (move_ids : List Move) (old : Option ℕ)
      → IsDated date
          (record { id = id; move_ids = move_ids; date_done = old })
          (super
            (vals_for
              (record { date_done = some (some date); others = others })
              (record { id = id; move_ids = move_ids; date_done = old }))
            (record { id = id; move_ids = move_ids; date_done = old }))
  one-IsDated date others id move_ids none = super_sets (some date) others _
  one-IsDated date others id move_ids (some old) = super_keeps others _

  all-IsDated :
      (date : ℕ) (others : O) (records : List Picking)
      → All₂ (IsDated date) records (
          map
            (λ picking.
              super
                (vals_for (record { date_done = some (some date); others = others }) picking)
                picking)
            records)
  all-IsDated date others [] = tt
  all-IsDated date others (picking ∷ records) = (
    one-IsDated date others picking.id picking.move_ids picking.date_done,
    all-IsDated date others records,
  )

  -- Where Odoo's own `write` sets the date it is given and keeps that of a picking otherwise, a write
  -- of a date during validation leaves the date of a picking that has one, and sets it on every
  -- other.
  pub write-IsDated :
      (date : ℕ) (others : O) (records : List Picking)
      → All₂
          (IsDated date)
          records
          (write super true (record { date_done = some (some date); others = others }) records)
  unfolding write
  write-IsDated date others records = all-IsDated date others records
