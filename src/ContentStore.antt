-- ===== src/ContentStore.antt =====
-- src/content_store.rs: bundles kept in a `sled` tree under their content addresses. The atomic
-- counter is a number of the state; the two exports, which write files, are left out.
pub mod Lookup
use cachee_cli.Base.{
  ℕ, ◌+◌, Bytes, Bool, true, false, not, ◌==◌, Option, none, some, List, [], ◌∷◌, Result, ok, err,
  if◌then◌else◌, length, wrap64,
}
use cachee_cli.Archive.Types.{CacheeArchiveBundle, Codecs}
use cachee_cli.Archive.Wire.{Error}
use cachee_cli.Archive.Bundle.{content_address, serialize, deserialize}
use cachee_cli.Sled.{Sled}

pub data StoreError : Type 0 where
  write_failed flush_failed read_failed : StoreError
  deserialization_failed : Error → StoreError

module _ (sled : Sled) (c : Codecs) where
  pub record ContentStore : Type 0 where
    pub db : sled.Db
    pub count : ℕ

  -- `db` is what `sled::open` returned.
  unfoldable pub open_store : sled.Db → ContentStore
  open_store db = record { db = db; count = wrap64 (sled.len db) }

  -- The count moves on only when the bundle is stored and flushed.
  unfoldable pub put : ContentStore → CacheeArchiveBundle → ContentStore × Result StoreError Bytes
  put store bundle =
      let address = content_address c bundle in
      elim (sled.insert store.db address (serialize c bundle)) [
        | none ↦ (store, err write_failed)
        | some db ↦
            if not (sled.flush db)
            then (record store { db = db }, err flush_failed)
            else (record { db = db; count = wrap64 (store.count + 1) }, ok address)
      ]

  unfoldable pub read_bundle_bytes : Option Bytes → Result StoreError (Option CacheeArchiveBundle)
  read_bundle_bytes none = ok none
  read_bundle_bytes (some bytes) = elim (deserialize c bytes) [
    | err e ↦ err (deserialization_failed e)
    | ok bundle ↦ ok (some bundle)
  ]

  unfoldable pub get : ContentStore → Bytes → Result StoreError (Option CacheeArchiveBundle)
  get store address = elim (sled.get store.db address) [
    | none ↦ err read_failed
    | some found ↦ read_bundle_bytes found
  ]

  unfoldable pub exists : ContentStore → Bytes → Bool
  exists store address = elim (sled.contains_key store.db address) [ none ↦ false | some b ↦ b ]

  unfoldable pub store_len : ContentStore → ℕ
  store_len store = store.count

  unfoldable pub store_is_empty : ContentStore → Bool
  store_is_empty store = store.count == 0

  unfoldable pub keys_of_width : List (Option (Bytes × Bytes)) → List Bytes
  keys_of_width [] = []
  keys_of_width (none ∷ items) = keys_of_width items
  keys_of_width (some (key, v) ∷ items) =
      let rest = keys_of_width items in if length key == 32 then key ∷ rest else rest

  unfoldable pub addresses : ContentStore → List Bytes
  addresses store = keys_of_width (sled.iter store.db)
