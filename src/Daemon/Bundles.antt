-- ===== src/Daemon/Bundles.antt =====
-- `slot_to_bundle` of src/daemon.rs: the bundle that a SET stores.
pub mod Signed
use cachee_cli.Base.{
  ℕ, Bytes, Str, Bool, Option, none, some, List, [], ◌∷◌, leb, length, take, replicate,
  if◌then◌else◌, ascii, to_be, ◌>>=◌,
}
use cachee_cli.Archive.Types.{
  CacheeArchiveBundle, SignerPublicKeys, SignatureBundle, SignerIdentity, CompletenessLevel, Codecs,
}
use cachee_cli.Archive.Types.{default_identity, cab_magic, custom, complete, partial}
use cachee_cli.Crypto.{PqCrypto}
use cachee_cli.CacheSlot.{CacheSlot}
use cachee_cli.PqKeys.{
  PqKeySet, SignResult, CryptoPosture, development, testing, production, sign, public_keys,
}

-- `format!("{:?}", posture)`
unfoldable pub posture_text : CryptoPosture → Str
posture_text development = ascii "Development"
posture_text testing = ascii "Testing"
posture_text production = ascii "Production"

unfoldable pub prefix_of : Bytes → Bytes
prefix_of sig = if leb 2 (length sig) then take 2 sig else replicate 2 0

abbrev pub no_signatures : SignResult
no_signatures = record { mldsa_sig = []; falcon_sig = []; slhdsa_sig = [] }

abbrev pub no_keys : SignerPublicKeys
no_keys = record { mldsa65 = []; falcon512 = []; slhdsa128f = [] }

unfoldable pub bundle_identity : Option PqKeySet → Str → SignerIdentity
bundle_identity none issuer_id = default_identity
bundle_identity (some keys) issuer_id = record {
  key_id = keys.metadata.key_id;
  key_version = keys.metadata.version;
  families = ascii "ML-DSA-65" ∷ ascii "FALCON-512" ∷ ascii "SLH-DSA-SHA2-128f" ∷ [];
  issuer = issuer_id;
  posture = posture_text keys.metadata.posture;
}

-- Without keys all prefixes are zero, as those of empty signatures are.
unfoldable pub assemble :
    Bytes
    → CacheSlot
    → SignerPublicKeys
    → SignResult
    → CompletenessLevel
    → SignerIdentity
    → CacheeArchiveBundle
assemble content_hash slot keys sigs completeness identity = record {
  magic = cab_magic;
  version = 1;
  primitive = record {
    version = 1;
    timestamp = to_be 8 slot.created_at;
    value_hash = content_hash;
    mldsa_prefix = prefix_of sigs.mldsa_sig;
    falcon_prefix = prefix_of sigs.falcon_sig;
    slhdsa_prefix = prefix_of sigs.slhdsa_sig;
    flags = replicate 11 0;
  };
  content_hash = content_hash;
  computation_type = custom 0;
  timestamp_ns = slot.created_at;
  signer_keys = keys;
  signatures = record {
    mldsa65 = sigs.mldsa_sig;
    falcon512 = sigs.falcon_sig;
    slhdsa128f = sigs.slhdsa_sig;
  };
  metadata = [];
  on_chain_anchor = none;
  completeness = completeness;
  computation_fingerprint = slot.fingerprint;
  signer_identity = identity;
}

-- `none` is the panic of `sign` on a secret key that a crate cannot read.
unfoldable pub slot_to_bundle :
    Codecs → PqCrypto → CacheSlot → Option PqKeySet → Str → Option CacheeArchiveBundle
unfolding assemble bundle_identity prefix_of
slot_to_bundle c pq slot none issuer_id = some (
    assemble (c.sha3_256 slot.value) slot no_keys no_signatures partial
      (bundle_identity none issuer_id))
slot_to_bundle c pq slot (some keys) issuer_id = do
  sigs ← sign pq keys (c.sha3_256 slot.value)
  some (
      assemble (c.sha3_256 slot.value) slot (public_keys keys) sigs complete
        (bundle_identity (some keys) issuer_id))
