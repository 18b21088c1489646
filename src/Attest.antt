-- ===== src/Attest.antt =====
-- src/attest.rs: the switch of the attestation in the configuration file, and what `status` prints.
use cachee_cli.Base.{
  Bytes, Str, Bool, true, false, Option, none, some, List, [], ◌∷◌, ◌≡◌, refl, ap, ◌∙◌, Result, ok,
  err, if◌then◌else◌, ascii, lines, starts_with, split_on, second,
}
use cachee_cli.Config.{CacheeConfig, ConfigError, load_config}
use cachee_cli.Security.{or_text}
use cachee_cli.Signup.{Toml, Files, Write, write_done, write_failed, load}
use cachee_cli.Signup.Account.{TomlLaws}

pub data AttestError : Type 0 where
  config_failed : ConfigError → AttestError
  print_failed io_failed no_identity : AttestError

-- The configuration is loaded, changed and written.
unfoldable pub set_attest : Toml → Write → Bool → Files → Files × Result AttestError (Unit {0})
unfolding load
set_attest toml disk on files = elim (load toml files) [
  | err e ↦ (files, err (config_failed e))
  | ok cfg ↦ elim (toml.print_config (record cfg { attest_enabled = on })) [
    | none ↦ (files, err print_failed)
    | some text ↦ elim disk [
      | write_done ↦ (record files { config = some text }, ok tt)
      | write_failed left ↦ (record files { config = left }, err io_failed)
    ]
  ]
]

-- The identity file is looked for after the configuration is written.
unfoldable pub enable : Toml → Write → Bool → Files → Files × Result AttestError (Unit {0})
unfolding set_attest
enable toml disk identity_exists files =
    let (after, outcome) = set_attest toml disk true files in
    elim outcome [
      | err e ↦ (after, err e)
      | ok u ↦ (after, if identity_exists then ok tt else err no_identity)
    ]

unfoldable pub disable : Toml → Write → Files → Files × Result AttestError (Unit {0})
unfolding set_attest
disable toml disk files = set_attest toml disk false files

-- The key numbers of the identity file, one for each line that starts with key_id.
unfoldable pub key_ids : List Str → List Str
key_ids [] = []
key_ids (l ∷ ls) =
    let rest = key_ids ls in
    if starts_with l (ascii "key_id")
    then or_text (ascii "unknown") (second (split_on 34 l)) ∷ rest
    else rest

-- Whether the attestation is on, and the key numbers of the identity file if there is one.
unfoldable pub status : Toml → Option Str → Files → Result AttestError (Bool × List Str)
unfolding load key_ids
status toml identity files = elim (load toml files) [
  | err e ↦ err (config_failed e)
  | ok cfg ↦ ok (cfg.attest_enabled, elim identity [ none ↦ [] | some text ↦ key_ids (lines text) ])
]

-- Without an identity `enable` fails, and the attestation is switched on all the same. The
-- configuration loads, prints and is written, and TOML reads back what it printed.
pub enable-status :
    (toml : Toml)
    → TomlLaws toml
    → (files : Files) (cfg : CacheeConfig) (text : Bytes) → load toml files ≡ ok cfg
    → toml.print_config (record cfg { attest_enabled = true }) ≡ some text
    → ((enable toml write_done false files).1 ≡ err no_identity)
      × (status toml none (enable toml write_done false files).0 ≡ ok (true, []))
unfolding enable set_attest status load load_config
enable-status toml laws files cfg text loaded printed =
    let back = laws.read_config (record cfg { attest_enabled = true }) text printed in
    let on : set_attest toml write_done true files ≡ (record files { config = some text }, ok tt) =
      rw (set_attest, loaded, printed) refl in
    let enabled : enable toml write_done false files
        ≡ (record files { config = some text }, err no_identity) =
      rw (enable, on, ap (λ o. o.0) on) refl in
    let shown : status toml none (record files { config = some text }) ≡ ok (true, []) =
      rw (status, load, load_config, back) refl in
    (ap (λ o. o.1) enabled, ap (λ o. status toml none o.0) enabled ∙ shown)
