-- ===== src/Archive/Types.antt =====
-- The data of src/archive.rs. A fixed-size array `[u8; N]` is a byte string, and a `String` the
-- string of its UTF-8 bytes; what the Rust types say of lengths and ranges is a hypothesis of the
-- theorems that need it.
use cachee_cli.Base.{ℕ, Bytes, Str, Option, none, List, [], ◌∷◌, replicate, ◌==◌}
use cachee_cli.Base.{if◌then◌else◌}

-- `[0u8; 32]`
abbrev pub zero_hash : Bytes
zero_hash = replicate 32 0

abbrev pub cab_magic : Bytes
cab_magic = b'C' ∷ b'A' ∷ b'B' ∷ b'1' ∷ []

abbrev pub cab_version : ℕ
cab_version = 1

pub record ComputationVersion : Type 0 where
  pub engine : Str
  pub version : Str
  pub circuit_id : Option Str

pub data HardwareClass : Type 0 where
  deterministic near_deterministic : HardwareClass
  non_deterministic : Str → HardwareClass

pub record ComputationFingerprint : Type 0 where
  pub input_hash : Bytes
  pub computation_hash : Bytes
  pub parameter_hash : Bytes
  pub version : ComputationVersion
  pub hardware_class : Option HardwareClass

-- `ComputationFingerprint::empty`
abbrev pub empty_fingerprint : ComputationFingerprint
empty_fingerprint = record {
  input_hash = zero_hash;
  computation_hash = zero_hash;
  parameter_hash = zero_hash;
  version = record { engine = []; version = []; circuit_id = none };
  hardware_class = none;
}

pub data ComputationType : Type 0 where
  biometric_auth document_attest supply_chain_verify financial_audit : ComputationType
  ai_model_attest post_quantum_migration : ComputationType
  custom : ℕ → ComputationType

unfoldable pub to_u16 : ComputationType → ℕ
to_u16 biometric_auth = 0x01
to_u16 document_attest = 0x02
to_u16 supply_chain_verify = 0x03
to_u16 financial_audit = 0x04
to_u16 ai_model_attest = 0x05
to_u16 post_quantum_migration = 0x12
to_u16 (custom v) = v

unfoldable pub from_u16 : ℕ → ComputationType
from_u16 v =
    if v == 0x01
    then biometric_auth
    else if v == 0x02
    then document_attest
    else if v == 0x03
    then supply_chain_verify
    else if v == 0x04
    then financial_audit
    else if v == 0x05
    then ai_model_attest
    else if v == 0x12
    then post_quantum_migration
    else custom v

pub data CompletenessLevel : Type 0 where
  complete partial minimal_viable : CompletenessLevel

pub data FamilyStatus : Type 0 where
  active : FamilyStatus
  deprecated_with_notice : ℕ → FamilyStatus
  revoked : Str → FamilyStatus

pub record H33Primitive : Type 0 where
  pub version : ℕ
  pub timestamp : Bytes
  pub value_hash : Bytes
  pub mldsa_prefix : Bytes
  pub falcon_prefix : Bytes
  pub slhdsa_prefix : Bytes
  pub flags : Bytes

pub record SignerPublicKeys : Type 0 where
  pub mldsa65 : Bytes
  pub falcon512 : Bytes
  pub slhdsa128f : Bytes

pub record SignatureBundle : Type 0 where
  pub mldsa65 : Bytes
  pub falcon512 : Bytes
  pub slhdsa128f : Bytes

pub record SignerIdentity : Type 0 where
  pub key_id : Bytes
  pub key_version : ℕ
  pub families : List Str
  pub issuer : Str
  pub posture : Str

-- `SignerIdentity::default`; the posture is "unknown"
abbrev pub default_identity : SignerIdentity
default_identity = record {
  key_id = zero_hash;
  key_version = 0;
  families = [];
  issuer = [];
  posture = b'u' ∷ b'n' ∷ b'k' ∷ b'n' ∷ b'o' ∷ b'w' ∷ b'n' ∷ [];
}

pub record OnChainAnchor : Type 0 where
  pub hash : Bytes
  pub retrieval_pointer : Bytes

pub record CacheeArchiveBundle : Type 0 where
  pub magic : Bytes
  pub version : ℕ
  pub primitive : H33Primitive
  pub content_hash : Bytes
  pub computation_type : ComputationType
  pub timestamp_ns : ℕ
  pub signer_keys : SignerPublicKeys
  pub signatures : SignatureBundle
  pub metadata : Bytes
  pub on_chain_anchor : Option OnChainAnchor
  pub completeness : CompletenessLevel
  pub computation_fingerprint : ComputationFingerprint
  pub signer_identity : SignerIdentity

-- The crates that the bundle's code calls: `sha3` (one call on all that `update` was given), and
-- `serde_json` on the signer's identity. `none` is an error of theirs.
pub record Codecs : Type 0 where
  pub sha3_256 : Bytes → Bytes
  pub identity_to_json : SignerIdentity → Option Bytes
  pub identity_of_json : Bytes → Option SignerIdentity
