-- ===== src/Stock/Channel.antt =====
-- The channel of a company's accounting jobs, and its entry in the configuration file:
-- a1_stock_account/models/stock_valuation_layer.py. Texts are lists of code points, and the file is
-- what `ConfigParser` reads of it: options and their values by section.
pub mod Listed
pub mod Kept
use hai_compnay.Common.{
  ℕ, List, [], ◌∷◌, ◌++◌, Option, none, some, Bool, true, false, if◌then◌else◌, any, codes_key,
  codes_beq, not,
}
use hai_compnay.Common.Decimal.{Text, str, split}
use hai_compnay.Common.Dict.{Dict, get_or, lookup, modify}

abbrev pub Config : Type 0
Config = Dict Text (Dict Text Text)

abbrev pub lists : Text → Text → Bool
lists value existing_value = any (codes_beq value) (split b',' existing_value)

-- The new value of the option.
abbrev pub new_value : Text → Option Text → Text
new_value value none = value
new_value value (some existing_value) =
    if lists value existing_value then existing_value else existing_value ++ b',' ∷ value

unfoldable pub update_odoo_config : Text → Text → Text → Config → Config
update_odoo_config section option value config =
    let options = get_or (lookup section config) [] in
    let new = new_value value (lookup option options) in
    modify section (modify option (λ _. new) []) [] config

-- The names of the job channels below the root, and the file.
pub record Jobs : Type 0 where
  pub channels : List Text
  pub config : Config

-- The texts of the source: `queue_job` and `channels`, and the parts of a channel's name.
pub record Names : Type 0 where
  pub queue_job : Text
  pub channels : Text
  pub wh_ : Text
  pub _job_channel : Text

abbrev pub job_name : Names → ℕ → Text
job_name names company = names.wh_ ++ str company ++ names._job_channel

-- The channel's entry in the file: its name, and room for one job.
abbrev pub entry : Text → Text
entry name = name ++ b':' ∷ b'1' ∷ []

-- What `_validate_accounting_entries` does outside a job before it delays Odoo's own, on layers of
-- this company.
unfoldable pub ensure_channel : Names → ℕ → Jobs → Jobs
ensure_channel names company jobs =
    let name = job_name names company in
    if not (any (codes_beq name) jobs.channels)
    then record {
      channels = jobs.channels ++ name ∷ [];
      config = update_odoo_config names.queue_job names.channels (entry name) jobs.config;
    }
    else jobs
