-- ===== src/PlanCommands/Changes.antt =====
-- When the commands of src/plan.rs change the configuration.
use cachee_cli.Base.{
  ℕ, ◌+◌, ◌<◌, Bytes, Str, true, some, ◌≡◌, ◌⊎◌, refl, inl, inr, Result, ok, Bool-cases, Option,
  ascii,
}
use cachee_cli.Config.{CacheeConfig, load_config}
use cachee_cli.Signup.{
  Toml, Files, Write, write_done, write_failed, Credentials, load_credentials, load,
}
use cachee_cli.Signup.Account.{TomlLaws}
use cachee_cli.PlanCommands.{
  Body, Response, success, PlanError, PlanDone, upgraded, Outcome, is_valid_tier, apply_plan,
  attested, write_plan, confirmation, attempts, sync, text_or, number_or,
}

-- Not the end of a paid upgrade.
abbrev pub NotUpgraded : Result PlanError PlanDone → Type 0
NotUpgraded (ok (upgraded tier ops)) = ⊥
NotUpgraded _ = Unit

-- The tiers that do not switch the attestation on.
abbrev Unattested : Str → Type 0
Unattested tier = (tier ≡ ascii "free") ⊎ (tier ≡ ascii "payg")

-- The tier and the limit are in the configuration, the attestation is on after any tier but these two,
-- and all else is as it was.
abbrev pub PlanIn : Str → ℕ → CacheeConfig → CacheeConfig → Type 0
PlanIn tier ops before after =
    (after.plan ≡ record (before.plan) { tier = tier; ops_per_month = ops })
    × (after ≡ record before { plan = after.plan; attest_enabled = after.attest_enabled })
    × ((Unattested tier × (after.attest_enabled ≡ before.attest_enabled))
        ⊎ ((¬ (Unattested tier)) × (after.attest_enabled ≡ true)))

module _ (toml : Toml) (disk : Write) where
  -- The configuration that was loaded is in its file, with the plan; the other files are as they were.
  abbrev pub Planned : Str → ℕ → Files → Files → Type 0
  Planned tier ops files written =
      (before : CacheeConfig) × (after : CacheeConfig) × (load toml files ≡ ok before)
      × PlanIn tier ops before after
      × (written.config ≡ toml.print_config after)
      × (written.credentials ≡ files.credentials)
      × (written.pending_signup ≡ files.pending_signup)

  -- The configuration file is what its failed write left.
  abbrev pub Spoilt : Files → Outcome → Type 0
  Spoilt files out =
      (left : Option Bytes) × (disk ≡ write_failed left)
      × (out.0 ≡ record files { config = left })
      × NotUpgraded out.1

  -- Attempt `n` of the polls confirms the tier, and the plan that it reports is written, or the write
  -- fails.
  abbrev pub Paid : Str → (ℕ → Response) → ℕ → Files → Outcome → Type 0
  Paid tier responses n files out =
      (ops : ℕ) × (confirmation tier (responses n) ≡ some ops)
      × (Spoilt files out ⊎ (Planned tier ops files out.0 × (out.1 ≡ ok (upgraded tier ops))))

  abbrev pub Bought : Str → (ℕ → Response) → Files → Outcome → Type 0
  Bought tier responses files out =
      ((out.0 ≡ files) × NotUpgraded out.1)
      ⊎ ((is_valid_tier tier ≡ true)
          × ((creds : Credentials) × (load_credentials toml files ≡ some creds))
          × ((n : ℕ) × (n < attempts) × Paid tier responses (1 + n) files out))

module _ (toml : Toml) where
  apply_plan-attested :
      (tier : Str) (ops : ℕ) (config : CacheeConfig)
      → config.attest_enabled ≡ true
      → (apply_plan tier ops config).attest_enabled ≡ true
  unfolding apply_plan
  apply_plan-attested tier ops config on = elim (Bool-cases (attested tier)) [
    | inl paid ↦ rw (apply_plan, paid) refl
    | inr unpaid ↦ rw (apply_plan, unpaid) on
  ]

  apply_plan-plan :
      (tier : Str) (ops : ℕ) (config : CacheeConfig)
      → ((apply_plan tier ops config).plan.tier ≡ tier)
        × ((apply_plan tier ops config).plan.ops_per_month ≡ ops)
  unfolding apply_plan
  apply_plan-plan tier ops config = elim (Bool-cases (attested tier)) [
    | inl paid ↦ rw (apply_plan, paid) (refl, refl)
    | inr unpaid ↦ rw (apply_plan, unpaid) (refl, refl)
  ]

  load-written :
      TomlLaws toml
      → (config : CacheeConfig) (text : Bytes) (files : Files)
      → toml.print_config config ≡ some text
      → load toml (record files { config = some text }) ≡ ok config
  unfolding load load_config
  load-written laws config text files printed =
      rw (load, load_config, laws.read_config config text printed) refl

  -- A sync with a body that the server sends leaves the reported plan (free when there is none) and
  -- limit (ten million when there is none) in the configuration that is then loaded; the attestation
  -- stays on when it was on, whatever plan is reported. The user is signed in, the configuration
  -- loads, prints and is written, and TOML reads back what it printed.
  pub sync-attested :
      TomlLaws toml
      → (body : Body) (files : Files) (creds : Credentials) (config : CacheeConfig) (text : Bytes)
      → load_credentials toml files ≡ some creds
      → load toml files ≡ ok config
      → toml.print_config
          (apply_plan (text_or (ascii "free") body.plan) (number_or 10000000 body.ops_limit) config)
        ≡ some text
      → config.attest_enabled ≡ true
      → (let out = sync toml write_done (success body) files in
          (after : CacheeConfig) × (load toml out.0 ≡ ok after)
          × (after.plan.tier ≡ text_or (ascii "free") body.plan)
          × (after.plan.ops_per_month ≡ number_or 10000000 body.ops_limit)
          × (after.attest_enabled ≡ true))
  unfolding sync write_plan
  sync-attested laws body files creds config text signed loaded printed on =
      let tier = text_or (ascii "free") body.plan in
      let ops = number_or 10000000 body.ops_limit in
      let planned = apply_plan-plan tier ops config in
      (
        apply_plan tier ops config,
        rw (sync, signed, write_plan, loaded, printed)
            (load-written laws (apply_plan tier ops config) text files printed),
        planned.0,
        planned.1,
        apply_plan-attested tier ops config on,
      )
