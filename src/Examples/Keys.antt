-- ===== src/Examples/Keys.antt =====
-- The theorems on key sets and key files, at a directory over an association list.
use cachee_cli.Base.{
  ℕ, Bytes, true, false, Option, none, some, List, [], ◌∷◌, ◌≡◌, refl, ◌<◌, arith, replicate, ascii,
  find_key, put_key, bytes_eq, bytes_eq_refl,
}
use cachee_cli.Archive.Types.{CacheeArchiveBundle}
use cachee_cli.Archive.Verify.{verify, is_valid}
use cachee_cli.CacheSlot.{CacheSlot, new_slot}
use cachee_cli.Trust.{trust_cached}
use cachee_cli.PqKeys.{KeyMetadata, PqKeySet, Directory, testing, save, load, write_all, restrict}
use cachee_cli.PqKeys.Files.{DirectoryLaws, load-save}
use cachee_cli.Security.{api_key_text}
use cachee_cli.Daemon.Bundles.{slot_to_bundle}
use cachee_cli.Daemon.Bundles.Signed.{Pair, slot_to_bundle-is_valid}
use cachee_cli.Daemon.KeyFiles.{read_entry}
use cachee_cli.Daemon.KeyFiles.Created.{read_entry-api_key_text}
use cachee_cli.Examples.{toy_family, toy_crypto, toy_codecs, toy_fingerprint}

-- The identifier is the one byte of the only metadata that the codec writes.
abbrev toy_metadata : KeyMetadata
toy_metadata = record {
  key_id = 7 ∷ [];
  version = 1;
  created_at = 5;
  last_used_at = 5;
  expires_at = none;
  revoked = false;
  rotated_from = none;
  posture = testing;
}

abbrev pub toy_keys : PqKeySet
toy_keys = record {
  mldsa_pk = 1 ∷ [];
  mldsa_sk = 1 ∷ [];
  falcon_pk = 2 ∷ [];
  falcon_sk = 2 ∷ [];
  slhdsa_pk = 3 ∷ [];
  slhdsa_sk = 3 ∷ [];
  metadata = toy_metadata;
}

abbrev toy_directory : Directory
toy_directory = record {
  Dir = List (Bytes × Bytes);
  create_dir_all = λ d. some d;
  write = λ d name text. some (put_key name text d);
  set_permissions = λ d name. d;
  read = λ d name. find_key name d;
  exists = λ d name. true;
}

toy_directory-laws : DirectoryLaws toy_directory
toy_directory-laws = record {
  contents = λ d. d;
  read_lem = λ d name. refl;
  write_lem = λ d d' name text h. cc h;
  set_permissions_lem = λ d name. refl;
}

abbrev meta_json : KeyMetadata → Option Bytes
meta_json m = some m.key_id

abbrev json_meta : Bytes → Option KeyMetadata
json_meta j = some toy_metadata

abbrev saved : List (Bytes × Bytes)
saved =
    (ascii "mldsa65.pub", 1 ∷ [])
    ∷ (ascii "falcon512.pub", 2 ∷ [])
    ∷ (ascii "slhdsa128f.pub", 3 ∷ [])
    ∷ (ascii "mldsa65.key", 1 ∷ [])
    ∷ (ascii "falcon512.key", 2 ∷ [])
    ∷ (ascii "slhdsa128f.key", 3 ∷ [])
    ∷ (ascii "metadata.json", 7 ∷ [])
    ∷ []

saved_so : save toy_directory meta_json json_meta (λ xs. xs) toy_keys [] ≡ some saved
unfolding save write_all restrict put_key bytes_eq
saved_so = refl

load-save_example : load toy_directory meta_json json_meta (λ xs. xs) saved ≡ some toy_keys
load-save_example =
    load-save toy_directory toy_directory-laws meta_json json_meta (λ xs. xs) toy_keys [] saved
      (λ j h. refl) saved_so

toy_key-Pair : (k : ℕ) → Pair toy_family (k ∷ []) (k ∷ [])
toy_key-Pair k = record {
  public_ok = refl;
  secret_ok = refl;
  signature_ok = λ m. ground arith;
  accepted = λ m. bytes_eq_refl (k ∷ m);
}

abbrev signed_slot : CacheSlot
signed_slot =
    new_slot toy_codecs 1000 50 (ascii "value") toy_fingerprint 3600 trust_cached (ascii "node")

late : 0 < signed_slot.created_at
unfolding new_slot
late = omega arith

slot_to_bundle-is_valid_example :
    ((b : CacheeArchiveBundle) × (slot_to_bundle toy_codecs toy_crypto signed_slot
          (some toy_keys)
          (ascii "node")
        ≡ some b)
      × (is_valid (verify toy_crypto b) ≡ true))
    × ((b : CacheeArchiveBundle) × (slot_to_bundle toy_codecs toy_crypto signed_slot none
            (ascii "node")
          ≡ some b)
        × ¬ (is_valid (verify toy_crypto b) ≡ true))
slot_to_bundle-is_valid_example =
    slot_to_bundle-is_valid toy_codecs toy_crypto signed_slot toy_keys (ascii "node")
      (record { mldsa = toy_key-Pair 1; falcon = toy_key-Pair 2; slhdsa = toy_key-Pair 3 }) late
      refl refl refl

read_entry-api_key_text_example :
    read_entry
      (λ s. some (replicate 32 9))
      (api_key_text (ascii "4e") (ascii "app") (ascii "read") (ascii "9a") (ascii "17"))
    ≡ some (
      replicate 32 9,
      record {
        key_id = ascii "4e";
        label = ascii "app";
        permissions = ascii "read";
        ops_limit = 0;
      },
    )
read_entry-api_key_text_example =
    read_entry-api_key_text (λ s. some (replicate 32 9)) (ascii "4e") (ascii "app") (ascii "read")
      (ascii "9a") (ascii "17") (replicate 32 9) ((refl, (refl, tt)), (refl, (refl, tt)))
      ((refl, (refl, (refl, tt))), (refl, (refl, (refl, tt))))
      ((refl, (refl, (refl, (refl, tt)))), (refl, (refl, (refl, (refl, tt)))))
      ((refl, (refl, tt)), (refl, (refl, tt))) (refl, (refl, tt)) refl refl
