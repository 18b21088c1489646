-- ===== src/Archive/Verify.antt =====
-- `CacheeArchiveBundle::verify` of src/archive.rs.
pub mod Verdict
use cachee_cli.Base.{
  ℕ, Bytes, Bool, true, false, List, [], ◌∷◌, ◌++◌, not, ◌&&◌, ◌||◌, ltb, leb, ◌==◌,
}
use cachee_cli.Base.{if◌then◌else◌, bytes_eq, unwrap_or, ascii}
use cachee_cli.Crypto.{PqCrypto, verify_mldsa65, verify_falcon512, verify_slhdsa128f, valid_count}
use cachee_cli.Archive.Types.{CacheeArchiveBundle, cab_magic, cab_version, zero_hash}
use cachee_cli.Archive.Fingerprint.{has_valid_hashes}

pub data Warning : Type 0 where
  development_posture missing_signer_identity fingerprint_not_present : Warning

pub data Reason : Type 0 where
  invalid_cab_magic content_hash_mismatch fewer_than_two invalid_timestamp : Reason

-- The reasons of an invalid verdict are joined by "; " in the source.
pub data VerificationVerdict : Type 0 where
  valid : VerificationVerdict
  valid_with_warnings : List Warning → VerificationVerdict
  invalid : List Reason → VerificationVerdict

pub record CryptographicValidity : Type 0 where
  pub mldsa_valid : Bool
  pub falcon_valid : Bool
  pub slhdsa_valid : Bool
  pub two_of_three : Bool
  pub all_three : Bool
  pub deprecated_family_present : Bool

pub record StructuralValidity : Type 0 where
  pub magic_valid : Bool
  pub version_supported : Bool
  pub fingerprint_present : Bool
  pub content_hash_matches : Bool
  pub timestamp_valid : Bool
  pub signer_identity_present : Bool

pub record VerificationResult : Type 0 where
  pub verdict : VerificationVerdict
  pub cryptographic : CryptographicValidity
  pub structural : StructuralValidity

unfoldable pub verdict_is_valid : VerificationVerdict → Bool
verdict_is_valid valid = true
verdict_is_valid (valid_with_warnings _) = true
verdict_is_valid (invalid _) = false

unfoldable pub is_valid : VerificationResult → Bool
unfolding verdict_is_valid
is_valid r = verdict_is_valid r.verdict

abbrev pub no_crypto : CryptographicValidity
no_crypto = record {
  mldsa_valid = false;
  falcon_valid = false;
  slhdsa_valid = false;
  two_of_three = false;
  all_three = false;
  deprecated_family_present = false;
}

abbrev pub no_structure : StructuralValidity
no_structure = record {
  magic_valid = false;
  version_supported = false;
  fingerprint_present = false;
  content_hash_matches = false;
  timestamp_valid = false;
  signer_identity_present = false;
}

-- `if test { list.push(x) }`
abbrev push_if : {A : Type 0} → Bool → A → List A → List A
push_if test x rest = if test then x ∷ rest else rest

unfoldable pub has_valid_fingerprint : CacheeArchiveBundle → Bool
has_valid_fingerprint b = has_valid_hashes b.computation_fingerprint

unfoldable pub check_signatures : PqCrypto → CacheeArchiveBundle → CryptographicValidity
check_signatures pq b =
    let message = b.content_hash in
    let mldsa =
      unwrap_or (verify_mldsa65 pq b.signer_keys.mldsa65 message b.signatures.mldsa65) false in
    let falcon =
      unwrap_or (verify_falcon512 pq b.signer_keys.falcon512 message b.signatures.falcon512)
        false in
    let slhdsa =
      unwrap_or (verify_slhdsa128f pq b.signer_keys.slhdsa128f message b.signatures.slhdsa128f)
        false in
    let count = valid_count mldsa falcon slhdsa in
    record {
      mldsa_valid = mldsa;
      falcon_valid = falcon;
      slhdsa_valid = slhdsa;
      two_of_three = leb 2 count;
      all_three = count == 3;
      deprecated_family_present = false;
    }

unfoldable pub check_structure : CacheeArchiveBundle → StructuralValidity
check_structure b = record {
  magic_valid = bytes_eq b.magic cab_magic;
  version_supported = b.version == cab_version;
  fingerprint_present = has_valid_fingerprint b;
  content_hash_matches = bytes_eq b.primitive.value_hash b.content_hash;
  timestamp_valid = ltb 0 b.timestamp_ns;
  signer_identity_present = not (bytes_eq b.signer_identity.key_id zero_hash);
}

unfoldable pub collect_warnings : CacheeArchiveBundle → StructuralValidity → List Warning
collect_warnings b s =
    push_if
      (bytes_eq b.signer_identity.posture (ascii "development")
        || bytes_eq b.signer_identity.posture (ascii "Development"))
      development_posture
      (push_if (not s.signer_identity_present) missing_signer_identity
        (push_if (not s.fingerprint_present) fingerprint_not_present []))

unfoldable pub collect_reasons : CryptographicValidity → StructuralValidity → List Reason
collect_reasons c s = push_if (not s.content_hash_matches) content_hash_mismatch (
    push_if (not c.two_of_three) fewer_than_two
      (push_if (not s.timestamp_valid) invalid_timestamp []))

abbrev verdict_of_warnings : List Warning → VerificationVerdict
verdict_of_warnings [] = valid
verdict_of_warnings (w ∷ ws) = valid_with_warnings (w ∷ ws)

unfoldable pub verdict_of :
    CacheeArchiveBundle → CryptographicValidity → StructuralValidity → VerificationVerdict
verdict_of b c s =
    if not (s.content_hash_matches && c.two_of_three && s.timestamp_valid)
    then invalid (collect_reasons c s)
    else verdict_of_warnings (collect_warnings b s)

unfoldable pub verify : PqCrypto → CacheeArchiveBundle → VerificationResult
verify pq b =
    if not (bytes_eq b.magic cab_magic)
    then record {
      verdict = invalid (invalid_cab_magic ∷ []);
      cryptographic = no_crypto;
      structural = no_structure;
    }
    else let c = check_signatures pq b in
      let s = check_structure b in
      record { verdict = verdict_of b c s; cryptographic = c; structural = s }
