-- ===== src/Transfer/Import.antt =====
-- models/stock_transfer_request.py: what `load` checks of an imported file, and what `create` fills in
-- before Odoo's own runs. A cell is a text, and the empty text is a missing value.
pub mod Required
use hai_compnay.Common.{
  ℕ, zero, suc, List, [], ◌∷◌, Option, none, some, Bool, true, false, Result, ok, err, ◌>>=◌, ◌>>◌,
  raise_if, if◌then◌else◌, is_nonempty, not, ◌&&◌, codes_beq,
}
use hai_compnay.Common.Decimal.{Text}
use hai_compnay.Transfer.Model.{TransferRequestType}

-- `line` is the line of the file, from 2 on.
pub data ImportError : Type 0 where
  missing_company : ℕ → ImportError
  missing_warehouse : ℕ → ImportError
  value_error index_error attribute_error : ImportError

-- What the context says: whether a file is imported, and the default type of its requests.
pub record Context : Type 0 where
  pub import_file : Bool
  pub default_transfer_request_type : Option TransferRequestType

abbrev pub is_inter : Option TransferRequestType → Bool
is_inter (some TransferRequestType.inter) = true
is_inter _ = false

-- `fields.index(name)`
abbrev pub index_from : ℕ → Text → List Text → Result ImportError ℕ
index_from i name [] = err value_error
index_from i name (f ∷ fs) = if codes_beq f name then ok i else index_from (suc i) name fs

-- `mouse[i]`
abbrev pub cell : ℕ → List Text → Result ImportError Text
cell i [] = err index_error
cell zero (c ∷ cs) = ok c
cell (suc i) (c ∷ cs) = cell i cs

-- `len(mouse) > 0 and mouse[0]`
abbrev pub starts_request : List Text → Bool
starts_request [] = false
starts_request (c ∷ cs) = is_nonempty c

-- The two checks of a line that starts a request.
abbrev pub check_line : Text → Text → List Text → ℕ → List Text → Result ImportError (Unit {0})
check_line company warehouse fields line_number mouse = do
  i ← index_from 0 company fields
  source_company_id ← cell i mouse
  raise_if (not (is_nonempty source_company_id)) (missing_company line_number)
  j ← index_from 0 warehouse fields
  source_warehouse_id ← cell j mouse
  raise_if (not (is_nonempty source_warehouse_id)) (missing_warehouse line_number)
  ok tt

unfoldable pub check_lines :
    Text → Text → List Text → ℕ → List (List Text) → Result ImportError (Unit {0})
check_lines company warehouse fields line_number [] = ok tt
check_lines company warehouse fields line_number (mouse ∷ data_) =
    let rest = check_lines company warehouse fields (suc line_number) data_ in
    if starts_request mouse
    then (check_line company warehouse fields line_number mouse >> rest)
    else rest

-- `_validate_required_field`; `company` and `warehouse` are the names of the two fields.
unfoldable pub validate_required_field :
    Context → Text → Text → List Text → List (List Text) → Result ImportError (Unit {0})
validate_required_field context company warehouse fields data_ =
    if context.import_file && is_inter context.default_transfer_request_type
    then check_lines company warehouse fields 2 data_
    else ok tt

-- The values of a new request that `create` reads or writes; `none` is a missing key or `False`. Of
-- the name it is a missing key or `New`, and `False` where no sequence gave one.
pub record Vals : Type 0 where
  pub name : Option Text
  pub transfer_request_type : Option TransferRequestType
  pub source_company_id : Option ℕ
  pub source_warehouse_id : Option ℕ

-- What an imported request between companies has as its source: `search` finds the warehouse of a
-- company with the name of a warehouse.
abbrev pub own_warehouse : (ℕ → ℕ → Option ℕ) → Vals → Result ImportError Vals
own_warehouse search vals = go vals.source_company_id vals.source_warehouse_id
  where
    go : Option ℕ → Option ℕ → Result ImportError Vals
    go none warehouse = ok vals
    go (some company) none = err attribute_error
    go (some company) (some warehouse) =
        ok (record vals { source_warehouse_id = search company warehouse })

abbrev pub import_vals : Context → (ℕ → ℕ → Option ℕ) → Vals → Result ImportError Vals
import_vals context search vals =
    let typed = record vals { transfer_request_type = context.default_transfer_request_type } in
    if not context.import_file
    then ok vals
    else if is_inter context.default_transfer_request_type
    then own_warehouse search typed
    else ok typed

-- A sequence of the database: what `next_by_code` gives, for requests between companies or within
-- one, and the database after it.
module _ {S : Type 0} (next_by_code : Bool → S → Option Text × S) where
  abbrev pub name_vals : S → Vals → Vals × S
  name_vals s vals = go vals.name
    where
      go : Option Text → Vals × S
      go (some name) = (vals, s)
      go none =
          let (name, s') = next_by_code (is_inter vals.transfer_request_type) s in
          (record vals { name = name }, s')

  -- `_update_fields_value_before_create`
  unfoldable pub update_fields_value_before_create :
      Context → (ℕ → ℕ → Option ℕ) → S → List Vals → Result ImportError (List Vals × S)
  update_fields_value_before_create context search s [] = ok ([], s)
  update_fields_value_before_create context search s (vals ∷ vals_list) =
      import_vals context search vals >>= λ imported.
      let (named, s') = name_vals s imported in
      update_fields_value_before_create context search s' vals_list >>= λ (rest, s'').
      ok (named ∷ rest, s'')
