-- ===== src/Stock/Channel/Kept.antt =====
-- Every channel has its entry in the configuration file.
use hai_compnay.Common.{
  ℕ, List, [], ◌∷◌, ◌++◌, ◌≡◌, refl, sym, subst, Bool, some, Bool-cases, true, false, inl, inr, any,
  All, All-append, codes_beq,
}
use hai_compnay.Common.Decimal.{Text}
use hai_compnay.Stock.Channel.{
  Config, Names, Jobs, lists, update_odoo_config, job_name, entry, ensure_channel,
}
use hai_compnay.Stock.Channel.Listed.{
  IsEntry, self, any-append-right, value_of, update_odoo_config_lem,
}

-- The file lists the channel's entry.
abbrev pub IsListed : Names → Config → Text → Type 0
IsListed names config name =
    (listed : Text) × (value_of names.queue_job names.channels config ≡ some listed)
    × (lists (entry name) listed ≡ true)

update-IsListed :
    (names : Names) (config : Config) (value : Text) (channels : List Text)
    → IsEntry value
    → All (IsListed names config) channels
    → All (IsListed names (update_odoo_config names.queue_job names.channels value config)) channels
update-IsListed names config value [] e h = tt
update-IsListed names config value (name ∷ channels) e ((old, is_old, listed), hs) =
    let ((new, is_new, has_value, keeps), others, again) =
      update_odoo_config_lem names.queue_job names.channels value config e in
    (
      (new, is_new, keeps old (entry name) is_old listed),
      update-IsListed names config value channels e hs,
    )

abbrev has_channel : Names → ℕ → Jobs → Bool
has_channel names company jobs = any (codes_beq (job_name names company)) jobs.channels

ensure_channel_stays :
    (names : Names) (company : ℕ) (jobs : Jobs)
    → has_channel names company jobs ≡ true
    → ensure_channel names company jobs ≡ jobs
unfolding ensure_channel
ensure_channel_stays names company jobs there = rw there refl

-- The jobs with the company's channel.
abbrev added : Names → ℕ → Jobs → Jobs
added names company jobs = record {
  channels = jobs.channels ++ job_name names company ∷ [];
  config =
      update_odoo_config names.queue_job names.channels (entry (job_name names company))
        jobs.config;
}

ensure_channel_adds :
    (names : Names) (company : ℕ) (jobs : Jobs)
    → has_channel names company jobs ≡ false
    → ensure_channel names company jobs ≡ added names company jobs
unfolding ensure_channel
ensure_channel_adds names company jobs missing_ = rw missing_ refl

-- What holds once a company's channel has been seen to.
abbrev pub IsEnsured : Names → ℕ → Jobs → Type 0
IsEnsured names company jobs =
    (any (codes_beq (job_name names company)) jobs.channels ≡ true)
    × All (IsListed names jobs.config) jobs.channels
    × (ensure_channel names company jobs ≡ jobs)

added-IsEnsured :
    (names : Names) (company : ℕ) (jobs : Jobs)
    → IsEntry (entry (job_name names company))
    → All (IsListed names jobs.config) jobs.channels
    → IsEnsured names company (added names company jobs)
added-IsEnsured names company jobs e h =
    let name = job_name names company in
    let there = any-append-right (codes_beq name) jobs.channels (name ∷ []) (rw (self name) refl) in
    let ((new, is_new, has_value, keeps), others, again) =
      update_odoo_config_lem names.queue_job names.channels (entry name) jobs.config e in
    (
      there,
      All-append (IsListed names (added names company jobs).config) jobs.channels (name ∷ [])
          (update-IsListed names jobs.config (entry name) jobs.channels e h)
          ((new, is_new, has_value), tt),
      ensure_channel_stays names company (added names company jobs) there,
    )

-- Let the entry hold no comma, and the file list the entry of every channel. After
-- `_validate_accounting_entries` has seen to a company's channel, the channel is there, the file lists
-- the entry of every channel still, and seeing to it again changes nothing.
pub ensure_channel-IsEnsured :
    (names : Names) (company : ℕ) (jobs : Jobs)
    → IsEntry (entry (job_name names company))
    → All (IsListed names jobs.config) jobs.channels
    → IsEnsured names company (ensure_channel names company jobs)
ensure_channel-IsEnsured names company jobs e h =
    elim (Bool-cases (has_channel names company jobs)) [
      | inl there ↦
          let stays = ensure_channel_stays names company jobs there in
          subst (IsEnsured names company) (sym stays) (there, h, stays)
      | inr missing_ ↦
          subst (IsEnsured names company) (sym (ensure_channel_adds names company jobs missing_))
            (added-IsEnsured names company jobs e h)
    ]
