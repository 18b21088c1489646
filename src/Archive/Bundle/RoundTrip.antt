-- ===== src/Archive/Bundle/RoundTrip.antt =====
-- Reading back a serialized bundle.
use cachee_cli.Base.{◌^◌, ◌≤◌, ◌<◌, Bytes, ◌≡◌, refl, ok, length, arith, none, some}
use cachee_cli.Base.{length-append, Option, ◌++◌}
use cachee_cli.Archive.Types.{CacheeArchiveBundle, Codecs, cab_magic, to_u16, HardwareClass}
use cachee_cli.Archive.Types.{ComputationFingerprint, deterministic, near_deterministic}
use cachee_cli.Archive.Types.{non_deterministic}
use cachee_cli.Archive.Primitive.{PrimitiveShape}
use cachee_cli.Archive.Fingerprint.{fingerprint_to_bytes, circuit_bytes, hardware_bytes}
use cachee_cli.Archive.Fingerprint.RoundTrip.{FingerprintFits, FitsCircuit, FitsHardware}
use cachee_cli.Archive.Wire.Laws.{At-start, Reads, Reads-bind, Reads-pure, Reads-u16, Reads-u64}
use cachee_cli.Archive.Wire.Laws.{
  Reads-slice, Reads-length_prefixed_u32, length-length_prefixed_u16,
}
use cachee_cli.Archive.Bundle.{serialize, deserialize, read_bundle}
use cachee_cli.Archive.Bundle.Kinds.{IsCanonical, FitsU16, from_u16-to_u16}
use cachee_cli.Archive.Bundle.Parts.{Reads-magic, Reads-primitive, Reads-signer_keys, KeysFit}
use cachee_cli.Archive.Bundle.Parts.{Reads-signatures, SignaturesFit, Reads-anchor, AnchorFits}
use cachee_cli.Archive.Bundle.Parts.{Reads-completeness, Reads-fingerprint_blob, Reads-identity}
use cachee_cli.Archive.Bundle.Parts.{JsonRoundTrips}

-- What the Rust types say of a bundle, and that its variable parts fit their length prefixes.
pub record BundleFits (c : Codecs) (b : CacheeArchiveBundle) : Type 0 where
  pub magic : b.magic ≡ cab_magic
  pub version : b.version < 2 ^ 16
  pub primitive : PrimitiveShape b.primitive
  pub content_hash : length b.content_hash ≡ 32
  pub canonical : IsCanonical b.computation_type
  pub computation_type : FitsU16 b.computation_type
  pub timestamp_ns : b.timestamp_ns < 2 ^ 64
  pub signer_keys : KeysFit b.signer_keys
  pub signatures : SignaturesFit b.signatures
  pub metadata : length b.metadata < 2 ^ 32
  pub on_chain_anchor : AnchorFits b.on_chain_anchor
  pub computation_fingerprint : FingerprintFits b.computation_fingerprint
  pub signer_identity : JsonRoundTrips c b.signer_identity

length-circuit_bytes : (o : Option Bytes) → FitsCircuit o → length (circuit_bytes o) ≤ 70000
unfolding circuit_bytes
length-circuit_bytes none h = omega arith
length-circuit_bytes (some id) h = omega (arith, length-length_prefixed_u16 id, h.short)

length-hardware_bytes :
    (o : Option HardwareClass) → FitsHardware o → length (hardware_bytes o) ≤ 70000
unfolding hardware_bytes
length-hardware_bytes none h = omega arith
length-hardware_bytes (some deterministic) h = omega arith
length-hardware_bytes (some near_deterministic) h = omega arith
length-hardware_bytes (some (non_deterministic id)) h =
    omega (arith, length-length_prefixed_u16 id, h.short)

fingerprint_short :
    (fp : ComputationFingerprint) → FingerprintFits fp → length (fingerprint_to_bytes fp) < 2 ^ 32
unfolding fingerprint_to_bytes
fingerprint_short fp h = omega (
  arith,
  length-append {0},
  length-length_prefixed_u16,
  length-circuit_bytes fp.version.circuit_id h.circuit_id,
  length-hardware_bytes fp.hardware_class h.hardware_class,
  h.engine.short,
  h.version.short,
)

Reads-bundle :
    (c : Codecs) (b : CacheeArchiveBundle)
    → BundleFits c b
    → Reads (read_bundle c) b (serialize c b)
unfolding read_bundle serialize
Reads-bundle c b fits = rw (fits.magic) (
    Reads-bind _ _ cab_magic Reads-magic (
      Reads-bind _ _ b.version (Reads-u16 _ fits.version) (
        Reads-bind _ _ b.primitive (Reads-primitive _ fits.primitive) (
          Reads-bind _ _ b.content_hash (Reads-slice _ 32 _ fits.content_hash) (
            Reads-bind _ _ (to_u16 b.computation_type) (Reads-u16 _ fits.computation_type) (
              Reads-bind _ _ b.timestamp_ns (Reads-u64 _ fits.timestamp_ns) (
                Reads-bind _ _ b.signer_keys (Reads-signer_keys _ fits.signer_keys) (
                  Reads-bind _ _ b.signatures (Reads-signatures _ fits.signatures) (
                    Reads-bind _ _ b.metadata (Reads-length_prefixed_u32 _ fits.metadata) (
                      Reads-bind _ _ b.on_chain_anchor (Reads-anchor _ fits.on_chain_anchor) (
                        Reads-bind _ _ b.completeness (Reads-completeness _) (
                          Reads-bind _ _ b.computation_fingerprint
                            (Reads-fingerprint_blob _ fits.computation_fingerprint
                              (fingerprint_short _ fits.computation_fingerprint))
                            (Reads-bind _ _ b.signer_identity
                              (Reads-identity c _ fits.signer_identity)
                              (rw (from_u16-to_u16 _ fits.canonical)
                                (Reads-pure (record b { magic = cab_magic }))))))))))))))))

-- A bundle that fits its length prefixes, with the magic bytes, a canonical computation type and an
-- identity that `serde_json` parses back, is read back whole, whatever bytes follow it.
pub deserialize-serialize :
    (c : Codecs) (b : CacheeArchiveBundle) (rest : Bytes)
    → BundleFits c b
    → deserialize c (serialize c b ++ rest) ≡ ok b
unfolding deserialize
deserialize-serialize c b rest fits =
    let all = serialize c b ++ rest in
    rw ((Reads-bundle c b fits).run all 0 rest (At-start all _ refl), deserialize) refl
