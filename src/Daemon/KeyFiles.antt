-- ===== src/Daemon/KeyFiles.antt =====
-- The key registry of src/daemon.rs, from its files, and the slots that a cold start rebuilds.
pub mod Created
use cachee_cli.Base.{
  ℕ, Bytes, Str, Bool, true, false, ◌&&◌, ◌*◌, Option, none, some, List, [], ◌∷◌, ok, err,
  if◌then◌else◌, ascii, ◌==◌, length, take, bytes_eq, starts_with, ends_with, parse_u64, put_key,
}
use cachee_cli.Config.{ConfigError, CacheeConfig}
use cachee_cli.Base.{Result}
use cachee_cli.Trust.{trust_cached}
use cachee_cli.CacheSlot.{CacheSlot, new_slot}
use cachee_cli.ContentStore.{ContentStore, get, addresses}
use cachee_cli.Security.{quoted_field, or_text}
use cachee_cli.Daemon.World.{World, Clock}
use cachee_cli.Daemon.Connection.{ApiKeyEntry, ApiKeyRegistry}

unfoldable pub extract_toml_field : Str → Str → Str
extract_toml_field content field = or_text [] (quoted_field content field)

abbrev number_or_zero : Option ℕ → ℕ
number_or_zero none = 0
number_or_zero (some n) = n

module _ (hex_decode : Str → Option Bytes) where
  -- The entry of one key file, if its hash has 32 bytes.
  unfoldable pub read_entry : Str → Option (Bytes × ApiKeyEntry)
  unfolding extract_toml_field
  read_entry content = elim (hex_decode (extract_toml_field content (ascii "secret_hash"))) [
    | none ↦ none
    | some hash ↦
        if length hash == 32
        then some (
          hash,
          record {
            key_id = extract_toml_field content (ascii "key_id");
            label = extract_toml_field content (ascii "label");
            permissions = extract_toml_field content (ascii "permissions");
            ops_limit = number_or_zero (parse_u64 (extract_toml_field content (ascii "ops_limit")));
          },
        )
        else none
  ]

  -- The directory's names, each with its text, `none` where it cannot be read.
  unfoldable pub read_key_files : List (Str × Option Str) → ApiKeyRegistry → ApiKeyRegistry
  unfolding read_entry
  read_key_files [] registry = registry
  read_key_files ((name, none) ∷ files) registry = read_key_files files registry
  read_key_files ((name, some content) ∷ files) registry =
      let same = read_key_files files registry in
      if starts_with name (ascii "apikey-") && ends_with name (ascii ".toml")
      then elim (read_entry content) [
        | none ↦ same
        | some (hash, entry) ↦ read_key_files files (put_key hash entry registry)
      ]
      else same

abbrev plan_limit : Result ConfigError CacheeConfig → ℕ
plan_limit (ok cfg) = cfg.plan.ops_per_month
plan_limit (err e) = 1000

-- The key of credentials.toml, if the file can be read and names one.
unfoldable pub add_credentials :
    (Bytes → Bytes) → Option Str → Result ConfigError CacheeConfig → ApiKeyRegistry → ApiKeyRegistry
unfolding extract_toml_field
add_credentials sha3_256 none config registry = registry
add_credentials sha3_256 (some content) config registry =
    let api_key = extract_toml_field content (ascii "api_key") in
    if length api_key == 0
    then registry
    else put_key (sha3_256 api_key)
        (record {
          key_id = ascii "cli-credentials";
          label = ascii "CLI signup key";
          permissions = ascii "read,write";
          ops_limit = plan_limit config;
        })
        registry

-- `files` is what `read_dir` gives, `none` where it fails.
unfoldable pub load_api_keys :
    (Str → Option Bytes)
    → (Bytes → Bytes)
    → Option (List (Str × Option Str))
    → Option Str
    → Result ConfigError CacheeConfig
    → Option ApiKeyRegistry
load_api_keys hex_decode sha3_256 none credentials config =
    some (add_credentials sha3_256 credentials config [])
load_api_keys hex_decode sha3_256 (some files) credentials config =
    some (add_credentials sha3_256 credentials config (read_key_files hex_decode files []))

-- The check of `start` with `require_auth`: `none` is the exit.
unfoldable pub initial_keys : Bool → Option ApiKeyRegistry → Option ApiKeyRegistry
initial_keys true none = none
initial_keys true (some []) = none
initial_keys true (some (k ∷ keys)) = some (k ∷ keys)
initial_keys false none = some []
initial_keys false (some keys) = some keys

-- One turn of the reloader.
unfoldable pub reload_registry : Option ApiKeyRegistry → ApiKeyRegistry → ApiKeyRegistry
reload_registry none registry = registry
reload_registry (some loaded) registry = loaded

module _ (w : World) (clock : Clock) (default_ttl : ℕ) where
  -- The slots of the stored bundles, their values empty, under the first half of their address. All
  -- readings of the clock are taken as one.
  unfoldable pub rebuild_slots :
      ContentStore w.env.sled w.codecs
      → List Bytes
      → List (Bytes × CacheSlot)
      → List (Bytes × CacheSlot)
  rebuild_slots store [] slots = slots
  rebuild_slots store (address ∷ rest) slots = elim (get w.env.sled w.codecs store address) [
    | err e ↦ rebuild_slots store rest slots
    | ok none ↦ rebuild_slots store rest slots
    | ok (some bundle) ↦
        let slot =
          new_slot w.codecs clock.slot clock.instant [] bundle.computation_fingerprint
            (default_ttl * 1000000000) trust_cached (ascii "cold-start") in
        rebuild_slots store rest (put_key (w.env.hex_encode (take 16 address)) slot slots)
  ]

  unfoldable pub cold_start : ContentStore w.env.sled w.codecs → List (Bytes × CacheSlot)
  unfolding rebuild_slots
  cold_start store = rebuild_slots store (addresses w.env.sled w.codecs store) []
