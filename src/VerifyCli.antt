-- ===== src/VerifyCli.antt =====
-- src/bin/verify.rs: the standalone verifier of bundles. The file system and `hex` are parameters,
-- and what is printed is kept as data.
pub mod Verdicts
use cachee_cli.Base.{
  ℕ, ◌+◌, ◌<◌, Bytes, Str, Bool, true, false, not, ◌&&◌, ◌||◌, Option, none, some, List, [], ◌∷◌,
  Result, ok, err, if◌then◌else◌, ltb, leb, ◌==◌, length, take, bytes_eq, ascii, starts_with,
  wrap64,
}
use cachee_cli.Crypto.{PqCrypto}
use cachee_cli.Archive.Types.{
  CacheeArchiveBundle, Codecs, ComputationType, OnChainAnchor, cab_magic,
}
use cachee_cli.Archive.Wire.{Error}
use cachee_cli.Archive.Bundle.{deserialize, content_address}
use cachee_cli.Archive.Fingerprint.{has_valid_hashes}
use cachee_cli.Archive.Verify.{VerificationResult, verify, is_valid}

pub data FileError : Type 0 where
  read_failed : FileError
  deserialization_failed : Error → FileError

-- `computation_type` is printed by `{:?}`, and is empty on an error.
pub record BundleVerification : Type 0 where
  pub file : Str
  pub valid : Bool
  pub magic_ok : Bool
  pub version : ℕ
  pub computation_type : Option ComputationType
  pub timestamp : ℕ
  pub fingerprint_present : Bool
  pub mldsa_valid : Bool
  pub falcon_valid : Bool
  pub slhdsa_valid : Bool
  pub two_of_three : Bool
  pub content_hash_hex : Str
  pub content_address_hex : Str
  pub engine : Str
  pub engine_version : Str
  pub circuit_id : Option Str
  pub on_chain_anchored : Bool
  pub posture : Str
  pub error : Option FileError

unfoldable pub failed_file : Str → Bool → FileError → BundleVerification
failed_file path magic_ok e = record {
  file = path;
  valid = false;
  magic_ok = magic_ok;
  version = 0;
  computation_type = none;
  timestamp = 0;
  fingerprint_present = false;
  mldsa_valid = false;
  falcon_valid = false;
  slhdsa_valid = false;
  two_of_three = false;
  content_hash_hex = [];
  content_address_hex = [];
  engine = [];
  engine_version = [];
  circuit_id = none;
  on_chain_anchored = false;
  posture = [];
  error = some e;
}

abbrev has_anchor : Option OnChainAnchor → Bool
has_anchor none = false
has_anchor (some a) = true

unfoldable pub magic_of : Bytes → Bool
magic_of bytes = leb 4 (length bytes) && bytes_eq (take 4 bytes) cab_magic

-- What the notice on the posture says.
pub data PostureNotice : Type 0 where
  development_keys testing_keys production_keys unknown_posture no_notice : PostureNotice

unfoldable pub posture_notice : Str → PostureNotice
posture_notice posture =
    if bytes_eq posture (ascii "development")
    then development_keys
    else if bytes_eq posture (ascii "testing")
    then testing_keys
    else if bytes_eq posture (ascii "production")
    then production_keys
    else if length posture == 0 || bytes_eq posture (ascii "unknown")
    then unknown_posture
    else no_notice

-- The report of one bundle: its JSON, or the first 16 digits of the two hashes, the notice and the
-- result. `none` is the panic of a slice past the end.
pub data Report : Type 0 where
  json : BundleVerification → Report
  text : Str → Str → PostureNotice → Bool → Report

unfoldable pub print_result : BundleVerification → Bool → Option Report
unfolding posture_notice
print_result r json_mode =
    if json_mode
    then some (json r)
    else if ltb (length r.content_hash_hex) 16 || ltb (length r.content_address_hex) 16
    then none
    else some (
        text (take 16 r.content_hash_hex) (take 16 r.content_address_hex) (posture_notice r.posture)
          r.valid)

pub record Counts : Type 0 where
  pub total : ℕ
  pub valid : ℕ
  pub invalid : ℕ

unfoldable pub count_one : BundleVerification → Counts → Counts
count_one r n =
    if r.valid
    then record n { total = wrap64 (n.total + 1); valid = wrap64 (n.valid + 1) }
    else record n { total = wrap64 (n.total + 1); invalid = wrap64 (n.invalid + 1) }

pub data Ending : Type 0 where
  exit : ℕ → Ending
  panicked : Ending

unfoldable pub has_word : Str → List Str → Bool
has_word word [] = false
has_word word (a ∷ args) = bytes_eq a word || has_word word args

-- The word after the first `word`, if that is there: `none` where `word` is missing.
unfoldable pub word_after : Str → List Str → Option (Option Str)
word_after word [] = none
word_after word (a ∷ []) = if bytes_eq a word then some none else none
word_after word (a ∷ b ∷ args) =
    let later = word_after word (b ∷ args) in if bytes_eq a word then some (some b) else later

module _ (c : Codecs) (pq : PqCrypto) (hex_encode : Bytes → Str) where
  unfoldable pub verified_file :
      Str → Bool → CacheeArchiveBundle → VerificationResult → BundleVerification
  verified_file path magic_ok b result = record {
    file = path;
    valid = is_valid result || result.cryptographic.two_of_three;
    magic_ok = magic_ok;
    version = b.version;
    computation_type = some b.computation_type;
    timestamp = b.timestamp_ns;
    fingerprint_present = has_valid_hashes b.computation_fingerprint;
    mldsa_valid = result.cryptographic.mldsa_valid;
    falcon_valid = result.cryptographic.falcon_valid;
    slhdsa_valid = result.cryptographic.slhdsa_valid;
    two_of_three = result.cryptographic.two_of_three;
    content_hash_hex = hex_encode b.content_hash;
    content_address_hex = hex_encode (content_address c b);
    engine = b.computation_fingerprint.version.engine;
    engine_version = b.computation_fingerprint.version.version;
    circuit_id = b.computation_fingerprint.version.circuit_id;
    on_chain_anchored = has_anchor b.on_chain_anchor;
    posture = b.signer_identity.posture;
    error = none;
  }

  -- The second argument is what `std::fs::read` gives, `none` an error.
  unfoldable pub verify_file : Str → Option Bytes → BundleVerification
  unfolding verified_file failed_file
  verify_file path none = failed_file path false read_failed
  verify_file path (some bytes) = elim (deserialize c bytes) [
    | err e ↦ failed_file path (magic_of bytes) (deserialization_failed e)
    | ok b ↦ verified_file path (magic_of bytes) b (verify pq b)
  ]

  -- The directory's files, each with its extension and what reading it gives.
  unfoldable pub verify_entries : List (Str × Option Str × Option Bytes) → Counts → Counts
  unfolding count_one verify_file
  verify_entries [] n = n
  verify_entries ((path, none, found) ∷ files) n = verify_entries files n
  verify_entries ((path, some ext, found) ∷ files) n =
      verify_entries files
        (if bytes_eq ext (ascii "cab") then count_one (verify_file path found) n else n)

  unfoldable pub verify_directory : Option (List (Str × Option Str × Option Bytes)) → Ending
  unfolding verify_entries
  verify_directory none = exit 1
  verify_directory (some files) =
      let n = verify_entries files (record { total = 0; valid = 0; invalid = 0 }) in
      exit (if ltb 0 n.invalid then 1 else 0)

  unfoldable pub verify_one : Str → Option Bytes → Bool → Ending
  unfolding verify_file
  verify_one path found json_mode =
      let r = verify_file path found in
      elim (print_result r json_mode) [
        | none ↦ panicked
        | some report ↦ exit (if r.valid then 0 else 1)
      ]

  -- `main`, on the arguments after the program's name.
  unfoldable pub verify_main :
      (Str → Option Bytes)
      → (Str → Option (List (Str × Option Str × Option Bytes)))
      → List Str
      → Ending
  unfolding verify_one verify_directory
  verify_main read read_dir [] = exit 1
  verify_main read read_dir (first ∷ args) =
      if bytes_eq first (ascii "--help") || bytes_eq first (ascii "-h")
      then exit 0
      else elim (word_after (ascii "--dir") (first ∷ args)) [
        | some none ↦ exit 1
        | some (some dir) ↦ verify_directory (read_dir dir)
        | none ↦
            if starts_with first (ascii "-")
            then exit 1
            else verify_one first (read first) (has_word (ascii "--json") (first ∷ args))
      ]
