-- ===== src/Product/DefaultCode.antt =====
-- Internal references: `_get_default_code` and `_generate_default_code` of
-- a1_product/models/product_product.py.
pub mod Names
pub mod Unique
use hai_compnay.Common.{
  ℕ, zero, suc, Option, none, some, List, [], ◌∷◌, ◌++◌, map, Bool, true, false, Result, ok, err,
  ◌>>=◌, ◌>>◌, raise_if, if◌then◌else◌, filtered, any, is_nonempty, not, ◌&&◌, ◌==◌, leb, codes_beq,
}
use hai_compnay.Common.Decimal.{Text, str}

-- A row of a category's attribute configuration.
pub record AttributeConfig : Type 0 where
  pub product_attribute_id : ℕ
  pub attribute_name : Text
  pub sequence : ℕ

-- A value of an attribute on a product.
pub record AttributeValue : Type 0 where
  pub attribute_id : ℕ
  pub attribute_name : Text
  pub name : Text

pub record Product : Type 0 where
  pub id : ℕ
  pub is_consu : Bool
  pub x_attribute_config_ids : List AttributeConfig
  pub product_template_attribute_value_ids : List AttributeValue
  pub default_code : Text

pub data Error : Type 0 where
  expected_singleton : Error
  attributes_mismatch : List Text → Error
  already_existed : Text → Error

-- `sorted(key=lambda x: x.sequence)`: a stable sort.
abbrev pub insert : AttributeConfig → List AttributeConfig → List AttributeConfig
insert c [] = c ∷ []
insert c (d ∷ ds) = if leb c.sequence d.sequence then c ∷ d ∷ ds else d ∷ insert c ds

unfoldable pub sorted : List AttributeConfig → List AttributeConfig
sorted [] = []
sorted (c ∷ cs) = insert c (sorted cs)

-- `name.replace(" ", "")`
abbrev pub strip_spaces : Text → Text
strip_spaces = filtered (λ c. not (c == b' '))

abbrev pub join : ℕ → List Text → Text
join sep [] = []
join sep (t ∷ []) = t
join sep (t ∷ u ∷ ts) = t ++ sep ∷ join sep (u ∷ ts)

abbrev pub values_of : List AttributeValue → AttributeConfig → List AttributeValue
values_of values c = filtered (λ v. v.attribute_id == c.product_attribute_id) values

-- One round of the loop over the configuration: the messages and names after it.
abbrev pub name_step :
    List Text
    → List Text
    → AttributeConfig
    → List AttributeValue
    → Result Error (List Text × List Text)
name_step errors names c [] = ok (errors ++ c.attribute_name ∷ [], names)
name_step errors names c (v ∷ []) = ok (errors, names ++ strip_spaces v.name ∷ [])
name_step errors names c (v ∷ w ∷ vs) = err expected_singleton

unfoldable pub names_loop :
    List AttributeValue
    → List Text
    → List Text
    → List AttributeConfig
    → Result Error (List Text × List Text)
names_loop values errors names [] = ok (errors, names)
names_loop values errors names (c ∷ cs) =
    name_step errors names c (values_of values c) >>= λ (errors', names').
    names_loop values errors' names' cs

abbrev pub is_configured : List AttributeConfig → AttributeValue → Bool
is_configured configs v = any (λ c. v.attribute_id == c.product_attribute_id) configs

-- `values.attribute_id.mapped('name')`: each attribute once, in the order in which it comes first.
abbrev pub attribute_names : List ℕ → List AttributeValue → List Text
attribute_names seen [] = []
attribute_names seen (v ∷ vs) =
    if any (λ i. v.attribute_id == i) seen
    then attribute_names seen vs
    else v.attribute_name ∷ attribute_names (v.attribute_id ∷ seen) vs

-- The messages on attributes that the category lacks.
abbrev pub extra_messages : List AttributeConfig → List AttributeValue → List Text
extra_messages configs values =
    attribute_names [] (filtered (λ v. not (is_configured configs v)) values)

-- "DEFAULT_"
abbrev pub default_prefix : Text
default_prefix = b'D' ∷ b'E' ∷ b'F' ∷ b'A' ∷ b'U' ∷ b'L' ∷ b'T' ∷ b'_' ∷ []

abbrev pub code_or_default : ℕ → Text → Text
code_or_default id [] = default_prefix ++ str id
code_or_default id (c ∷ cs) = c ∷ cs

unfoldable pub get_default_code : Bool → Product → Result Error Text
unfolding sorted names_loop
get_default_code install_mode product = do
  (errors, names) ←
      names_loop product.product_template_attribute_value_ids [] []
        (sorted product.x_attribute_config_ids)
  let error_messages =
      if is_nonempty errors
      then errors
      else extra_messages product.x_attribute_config_ids
          product.product_template_attribute_value_ids
  raise_if (is_nonempty error_messages && not install_mode) (attributes_mismatch error_messages)
  ok (code_or_default product.id (join b'-' names))

abbrev pub set_default_code : Product → Text → Product
set_default_code product code = record product { default_code = code }

-- A row of the table of products; a code that is not set is NULL.
pub record Row : Type 0 where
  pub id : ℕ
  pub default_code : Option Text

abbrev pub add_code : Option Text → List Text → List Text
add_code none codes = codes
add_code (some code) codes = code ∷ codes

abbrev pub codes_of : List Row → List Text
codes_of [] = []
codes_of (row ∷ rows) = add_code row.default_code (codes_of rows)

-- `id not in {tuple(self.ids + [0])}`
abbrev pub is_outside : List ℕ → Row → Bool
is_outside ids row = not (any (λ i. row.id == i) (ids ++ 0 ∷ []))

-- `_get_all_default_code`: the context says whether it is called from `create`.
unfoldable pub get_all_default_code : Bool → List ℕ → List Row → List Text
get_all_default_code default_code_from_create ids rows =
    codes_of (if default_code_from_create then filtered (is_outside ids) rows else rows)

-- `default_code in list_default_code`
abbrev pub mem_code : Text → List Text → Bool
mem_code code = any (codes_beq code)

-- One round of `_generate_default_code`, for a product whose type is `consu` or another; a code is never
-- empty, so `or product.default_code` never takes the other side.
unfoldable pub generate_one : Bool → List Text → Product → Result Error Product
generate_one install_mode existing product =
    if not product.is_consu
    then ok product
    else (get_default_code install_mode product >>= λ code.
        raise_if (mem_code code existing) (already_existed code)
        >> ok (set_default_code product code))

unfoldable pub generate_loop : Bool → List Text → List Product → Result Error (List Product)
unfolding generate_one
generate_loop install_mode existing [] = ok []
generate_loop install_mode existing (p ∷ ps) =
    let rest = generate_loop install_mode existing ps in
    generate_one install_mode existing p >>= λ p'. rest >>= λ ps'. ok (p' ∷ ps')

abbrev pub id_of : Product → ℕ
id_of product = product.id

-- `_generate_default_code`, where the table holds these rows when it is called.
unfoldable pub generate_default_code :
    Bool → Bool → List Row → List Product → Result Error (List Product)
unfolding get_all_default_code generate_loop
generate_default_code install_mode default_code_from_create rows products =
    let list_default_code =
      get_all_default_code default_code_from_create (map id_of products) rows in
    generate_loop install_mode list_default_code products

-- `_check_unique_default_code`
unfoldable pub check_each : List Text → List Product → Result Error (Unit {0})
check_each list_default_code [] = ok tt
check_each list_default_code (p ∷ ps) =
    let rest = check_each list_default_code ps in
    raise_if (mem_code p.default_code list_default_code) (already_existed p.default_code) >> rest

unfoldable pub check_unique_default_code : Bool → List Row → List Product → Result Error (Unit {0})
unfolding get_all_default_code check_each
check_unique_default_code default_code_from_create rows products =
    check_each (get_all_default_code default_code_from_create (map id_of products) rows) products
